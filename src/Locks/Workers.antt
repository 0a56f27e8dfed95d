-- ===== src/Locks/Workers.antt =====
-- Requests of several workers, interleaved: each takes the lock of its key, does its work, and
-- releases the lock by its deferred call.
use csi_driver_rclone.Prelude.{
  ℕ, ◌↔◌, ◌≡◌, arith, true, false, ◌∷◌, if◌then◌else◌, ◌==◌, ◌||◌, Bool-cases, inl, inr,
}
use csi_driver_rclone.Text.{Text, text_eq}
use csi_driver_rclone.Text.Eq.{text_eq_iff}
use csi_driver_rclone.Locks.{VolumeLocks, has, delete, new_volume_locks, try_acquire, release}
use csi_driver_rclone.Locks.Laws.{has-delete}

pub data Pc : Type 0 where
  idle : Pc
  working : (key : Text) → Pc

pub record System : Type 0 where
  pub vl : VolumeLocks
  pub pc : ℕ → Pc

abbrev pub set_pc : (ℕ → Pc) → ℕ → Pc → ℕ → Pc
set_pc pc i p j = if i == j then p else pc j

-- `accept` and `abort` are the two answers of `TryAcquire`; `finish` is the deferred `Release`.
pub data Step (s : System) : System → Type 0 where
  accept :
      (i : ℕ) (k : Text)
      → s.pc i ≡ idle
      → (try_acquire s.vl k).0 ≡ true
      → Step s (record { vl = (try_acquire s.vl k).1; pc = set_pc s.pc i (working k) })
  abort :
      (i : ℕ) (k : Text)
      → s.pc i ≡ idle
      → (try_acquire s.vl k).0 ≡ false
      → Step s (record { vl = (try_acquire s.vl k).1; pc = s.pc })
  finish :
      (i : ℕ) (k : Text)
      → s.pc i ≡ working k
      → Step s (record { vl = release s.vl k; pc = set_pc s.pc i idle })

abbrev pub init : System
init = record { vl = new_volume_locks; pc = λ i. idle }

pub data Reach : System → Type 0 where
  start : Reach init
  next : {s t : System} → Reach s → Step s t → Reach t

record Inv (s : System) : Type 0 where
  held : (i : ℕ) (k : Text) → s.pc i ≡ working k → has s.vl.locks k ≡ true
  unique : (i j : ℕ) (k : Text) → s.pc i ≡ working k → s.pc j ≡ working k → i ≡ j
  owned : (k : Text) → has s.vl.locks k ≡ true → (i : ℕ) × (s.pc i ≡ working k)

accept-owned :
    (s : System) (i : ℕ) (k : Text)
    → Inv s
    → s.pc i ≡ idle
    → (l : Text) → text_eq k l || has s.vl.locks l ≡ true
    → (j : ℕ) × (set_pc s.pc i (working k) j ≡ working l)
accept-owned s i k v p l h = elim (Bool-cases (text_eq k l)) [
  | inl e ↦ (i, ground (arith, text_eq_iff k l))
  | inr e ↦ let (j, q) = v.owned l (ground arith) in (j, ground arith)
]

accept-Inv :
    (s : System) (i : ℕ) (k : Text)
    → Inv s
    → s.pc i ≡ idle
    → has s.vl.locks k ≡ false
    → Inv (record { vl = record { locks = k ∷ s.vl.locks }; pc = set_pc s.pc i (working k) })
unfolding has
accept-Inv s i k v p free = record {
  held = λ j l e. ground (arith, v.held j l, text_eq_iff k l);
  unique = λ a b l e f. ground (arith, v.unique a b l, v.held a l, v.held b l);
  owned = accept-owned s i k v p;
}

finish-owned :
    (s : System) (i : ℕ) (k : Text)
    → Inv s
    → s.pc i ≡ working k
    → (l : Text) → has (delete s.vl.locks k) l ≡ true
    → (j : ℕ) × (set_pc s.pc i idle j ≡ working l)
finish-owned s i k v p l h =
    let (j, q) = v.owned l (ground (arith, has-delete s.vl.locks k l)) in
    (j, ground (arith, has-delete s.vl.locks k l, text_eq_iff k l))

finish-Inv :
    (s : System) (i : ℕ) (k : Text)
    → Inv s
    → s.pc i ≡ working k
    → Inv (record { vl = release s.vl k; pc = set_pc s.pc i idle })
unfolding release
finish-Inv s i k v p = record {
  held = λ j l e.
      ground (arith, v.held j l, has-delete s.vl.locks k l, text_eq_iff k l, v.unique i j k);
  unique = λ a b l e f. ground (arith, v.unique a b l);
  owned = finish-owned s i k v p;
}

Step-Inv : {s t : System} → Step s t → Inv s → Inv t
unfolding try_acquire
Step-Inv {s} (accept i k p a) v = elim (Bool-cases (has s.vl.locks k)) [
  | inl busy ↦ absurd (ground arith)
  | inr free ↦ rw free (accept-Inv s i k v p free)
]
Step-Inv {s} (abort i k p a) v = elim (Bool-cases (has s.vl.locks k)) [
  | inl busy ↦ rw busy v
  | inr free ↦ absurd (ground arith)
]
Step-Inv {s} (finish i k p) v = finish-Inv s i k v p

Reach-Inv : {s : System} → Reach s → Inv s
Reach-Inv start =
    unfold has in
    record { held = λ j l e. cc; unique = λ a b l e f. cc; owned = λ l h. absurd (cc) }
Reach-Inv (next r st) = Step-Inv st (Reach-Inv r)

-- In every reachable state, two workers on the same key are one worker: no two operations on a
-- volume and target run at once.
pub mutual_exclusion :
    {s : System} → Reach s → (i j : ℕ) (k : Text) → s.pc i ≡ working k → s.pc j ≡ working k → i ≡ j
mutual_exclusion r = (Reach-Inv r).unique

-- In every reachable state the set holds exactly the keys of the workers: a request is refused only
-- while some worker is on its key, and is accepted otherwise.
pub try_acquire-working :
    {s : System}
    → Reach s
    → (k : Text) → ((try_acquire s.vl k).0 ≡ false) ↔ ((i : ℕ) × (s.pc i ≡ working k))
unfolding try_acquire
try_acquire-working {s} r k =
    (λ h. (Reach-Inv r).owned k (ground arith), λ p. rw ((Reach-Inv r).held p.0 k p.1))

-- When no worker is at work, every key is free: no lock is left behind.
pub no_lock_left :
    {s : System} → Reach s → ((i : ℕ) → s.pc i ≡ idle) → (k : Text) → (try_acquire s.vl k).0 ≡ true
unfolding try_acquire
no_lock_left {s} r quiet k = elim (Bool-cases (has s.vl.locks k)) [
  | inl busy ↦ let (i, p) = (Reach-Inv r).owned k busy in absurd (ground (arith, quiet i))
  | inr free ↦ rw free
]
