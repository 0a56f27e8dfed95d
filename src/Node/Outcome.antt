-- ===== src/Node/Outcome.antt =====
-- What holds after a method, for each way out of it: of the value and the state where it returns, and
-- of the state where it fails.
use csi_driver_rclone.Prelude.{◌≡◌, Result, ok, err}
use csi_driver_rclone.Node.Calls.{Node}
use csi_driver_rclone.Node.Monad.{M, continue, on_failure}
use csi_driver_rclone.Node.Keeps.{Keeps}

abbrev pub Outcome {ℓ} :
    {E A : Type 0} → (A → Node → Type ℓ) → (Node → Type ℓ) → Result E A × Node → Type ℓ
Outcome Q R (ok a, s) = Q a s
Outcome Q R (err e, s) = R s

module _ {ℓ} {E A : Type 0} (Q : A → Node → Type ℓ) (R : Node → Type ℓ) where
  -- The state satisfies both.
  pub Outcome-state : (r : Result E A × Node) → ((a : A) → Q a r.1) → R r.1 → Outcome Q R r
  Outcome-state (ok a, s) h g = h a
  Outcome-state (err e, s) h g = g

  -- What is cleaned up after a failure.
  pub Outcome-on_failure :
      (S : Node → Type ℓ) (r : Result E A × Node) (clean : M E (Unit {0}))
      → Outcome Q S r
      → ((s : Node) → S s → R (clean s).1)
      → Outcome Q R (on_failure r clean)
  Outcome-on_failure S (ok a, s) clean h k = h
  Outcome-on_failure S (err e, s) clean h k = k s h

  -- One way out of the two leads to less.
  pub Outcome-weaken :
      (Q' : A → Node → Type ℓ) (R' : Node → Type ℓ) (r : Result E A × Node)
      → Outcome Q' R' r
      → ((a : A) (s : Node) → Q' a s → Q a s)
      → ((s : Node) → R' s → R s)
      → Outcome Q R r
  Outcome-weaken Q' R' (ok a, s) h f g = f a s h
  Outcome-weaken Q' R' (err e, s) h f g = g s h

  pub Outcome-bind :
      {B : Type 0} (Q' : B → Node → Type ℓ) (r : Result E B × Node) (f : B → M E A)
      → Outcome Q' R r
      → ((b : B) (s : Node) → Q' b s → Outcome Q R (f b s))
      → Outcome Q R (continue r f)
  Outcome-bind Q' (ok b, s) f h k = k b s h
  Outcome-bind Q' (err e, s) f h k = h

-- What a returned value says of the last state.
pub Outcome-ok {ℓ} :
    {E A : Type 0} (Q R : Node → Type ℓ) (r : Result E A × Node) {a : A}
    → r.0 ≡ ok a
    → Outcome (λ _. Q) R r
    → Q r.1
Outcome-ok Q R (ok a, s) e h = h
Outcome-ok Q R (err x, s) e h = absurd (cc)

-- A method that keeps `P` has it on both ways out.
pub Outcome-Keeps {ℓ} :
    {E A : Type 0} (P R : Node → Type ℓ) (m : M E A) (s : Node)
    → Keeps P m
    → P s
    → ((s' : Node) → P s' → R s')
    → Outcome (λ _. P) R (m s)
Outcome-Keeps P R m s k h weak =
    Outcome-state (λ _. P) R (m s) (λ a. k.at s h) (weak (m s).1 (k.at s h))
