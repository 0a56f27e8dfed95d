-- ===== src/Node/Monad.antt =====
-- Methods that change the state of the node service, make calls and may fail. What was done before a
-- failure stays done.
use csi_driver_rclone.Prelude.{Result, ok, err, ◌∷◌, ◌≡◌, refl, ap}
use csi_driver_rclone.Text.{Text}
use csi_driver_rclone.Status.{Code, Status, with_code}
use csi_driver_rclone.Node.Calls.{Call, Trace, Node}

abbrev pub M : Type 0 → Type 0 → Type 0
M E A = Node → Result E A × Node

abbrev pub continue : {E A B : Type 0} → Result E A × Node → (A → M E B) → Result E B × Node
continue (ok a, s) f = f a s
continue (err e, s) f = (err e, s)

infixl 5 ◌>>=◌ ◌>>◌
abbrev pub ◌>>=◌ : {E A B : Type 0} → M E A → (A → M E B) → M E B
◌>>=◌ m f s = continue (m s) f

abbrev pub ◌>>◌ : {E A B : Type 0} → M E A → M E B → M E B
m >> n = m >>= λ _. n

abbrev pub pure : {E A : Type 0} → A → M E A
pure a s = (ok a, s)

abbrev pub raise : {E A : Type 0} → E → M E A
raise e s = (err e, s)

abbrev pub lift : {E A : Type 0} → Result E A → M E A
lift r s = (r, s)

-- One call and its answer.
unfoldable pub perform : {E A : Type 0} → Call → (Trace → Result E A) → M E A
perform c answer s = (answer s.trace, record s { trace = c ∷ s.trace })

-- A call whose answer is not looked at.
unfoldable pub tell : {E : Type 0} → Call → M E Unit
tell c s = (ok tt, record s { trace = c ∷ s.trace })

-- A call whose answer, an error or not, is looked at as a value.
unfoldable pub observe : {E A : Type 0} → Call → (Trace → A) → M E A
observe c answer s = (ok (answer s.trace), record s { trace = c ∷ s.trace })

-- `if err := m; err != nil { return status.Errorf(c, prefix + "%v", err) }`.
abbrev pub wrapped : {A : Type 0} → Code → Text → M Text A → M Status A
wrapped c prefix m s = let (r, s') = m s in (with_code c prefix r, s')

-- `if err := m; err != nil { log }`
abbrev pub ignored : {E A : Type 0} → M Text A → M E Unit
ignored m s = let (r, s') = m s in (ok tt, s')

-- `if err := m; err != nil { clean; return err }`
abbrev pub on_failure : {E A : Type 0} → Result E A × Node → M E Unit → Result E A × Node
on_failure (ok a, s) clean = (ok a, s)
on_failure (err e, s) clean = let (_, s') = clean s in (err e, s')

abbrev pub or_clean : {E A : Type 0} → M E A → M E Unit → M E A
or_clean m clean s = on_failure (m s) clean

pub continue-ok :
    {E A B : Type 0} (r : Result E A × Node) (f : A → M E B) {a : A}
    → r.0 ≡ ok a
    → continue r f ≡ f a r.1
continue-ok (ok b, s) f {a} e = ap (λ x. f x s) (cc)
continue-ok (err x, s) f e = absurd (cc)

-- A last step that only returns leaves the state.
pub continue_state :
    {E A B : Type 0} (r : Result E A × Node) (b : B) → (continue r (λ _. pure b)).1 ≡ r.1
continue_state (ok a, s) b = refl
continue_state (err x, s) b = refl
