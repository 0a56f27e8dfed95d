-- ===== src/RwMutex.antt =====
-- Goroutines that share one `sync.RWMutex`, such as `mu` of the node server, by the calls that they
-- make on it.
--
-- As its documentation says, a call of `Lock` that waits keeps new readers out.
use csi_driver_rclone.Prelude.{
  ℕ, suc, ◌+◌, ◌-◌, ◌≡◌, Bool, true, false, ◌||◌, Option, none, some, List, ◌∷◌, ltb, if◌then◌else◌,
  sym, ap, ◌∙◌, arith,
}

-- A call of `Lock` is two operations: `lock` makes the call, and `acquire` returns from it.
pub data Op : Type 0 where
  rlock runlock lock acquire unlock : Op

pub record Mutex : Type 0 where
  pub readers : ℕ
  pub waiting : ℕ
  pub writing : Bool

abbrev pub free_mutex : Mutex
free_mutex = record { readers = 0; waiting = 0; writing = false }

-- `none` while the operation has to wait.
unfoldable pub act : Op → Mutex → Option Mutex
act rlock m =
    if m.writing || ltb 0 m.waiting then none else some (record m { readers = m.readers + 1 })
act runlock m = some (record m { readers = m.readers - 1 })
act lock m = some (record m { waiting = m.waiting + 1 })
act acquire m =
    if m.writing || ltb 0 m.readers
    then none
    else some (record m { waiting = m.waiting - 1; writing = true })
act unlock m = some (record m { writing = false })

-- Two goroutines, by the operations that each has still to do.
pub record Pair : Type 0 where
  pub mutex : Mutex
  pub first : List Op
  pub second : List Op

pub data Step (s : Pair) : Pair → Type 0 where
  step_first :
      (op : Op) (rest : List Op) (m : Mutex)
      → s.first ≡ op ∷ rest
      → act op s.mutex ≡ some m
      → Step s (record s { mutex = m; first = rest })
  step_second :
      (op : Op) (rest : List Op) (m : Mutex)
      → s.second ≡ op ∷ rest
      → act op s.mutex ≡ some m
      → Step s (record s { mutex = m; second = rest })

pub data Reach (s : Pair) : Pair → Type 0 where
  here : Reach s s
  next : {t u : Pair} → Reach s t → Step t u → Reach s u

abbrev pub start_pair : List Op → List Op → Pair
start_pair first second = record { mutex = free_mutex; first = first; second = second }

-- Neither goroutine has returned, and neither can ever go on.
pub record IsDeadlock (s : Pair) : Type 0 where
  pub first_left : (op : Op) × (rest : List Op) × (s.first ≡ op ∷ rest)
  pub second_left : (op : Op) × (rest : List Op) × (s.second ≡ op ∷ rest)
  pub blocked : (t : Pair) → Step s t → ⊥

-- A goroutine that holds the lock for reading and asks for it again, beside one that waits in `Lock`.
pub record IsNested (s : Pair) : Type 0 where
  pub asks : (rest : List Op) × (s.first ≡ rlock ∷ rest)
  pub waits : (rest : List Op) × (s.second ≡ acquire ∷ rest)
  pub held : (n : ℕ) × (s.mutex.readers ≡ suc n)
  pub pending : (n : ℕ) × (s.mutex.waiting ≡ suc n)

head_eq : {o p : Op} {l rest asked : List Op} → l ≡ o ∷ rest → l ≡ p ∷ asked → o ≡ p
head_eq e f = cc

none≢some : {o : Option Mutex} {m : Mutex} → o ≡ none → o ≡ some m → ⊥
none≢some e f = cc

rlock_waits : (m : Mutex) (n : ℕ) → m.waiting ≡ suc n → act rlock m ≡ none
unfolding act
rlock_waits m n h = ground arith

acquire_waits : (m : Mutex) (n : ℕ) → m.readers ≡ suc n → act acquire m ≡ none
unfolding act
acquire_waits m n h = ground arith

nested_blocked : {s t : Pair} → IsNested s → Step s t → ⊥
nested_blocked {s} h (step_first op rest m e a) =
    let (asked, f) = h.asks in
    let (n, w) = h.pending in
    absurd (none≢some (rlock_waits s.mutex n w) (sym (ap (λ o. act o s.mutex) (head_eq e f)) ∙ a))
nested_blocked {s} h (step_second op rest m e a) =
    let (waiting, f) = h.waits in
    let (n, r) = h.held in
    absurd (none≢some (acquire_waits s.mutex n r) (sym (ap (λ o. act o s.mutex) (head_eq e f)) ∙ a))

-- Such a state is a deadlock.
pub IsNested-IsDeadlock : {s : Pair} → IsNested s → IsDeadlock s
IsNested-IsDeadlock h = record {
  first_left = (rlock, h.asks.0, h.asks.1);
  second_left = (acquire, h.waits.0, h.waits.1);
  blocked = λ t st. nested_blocked h st;
}
