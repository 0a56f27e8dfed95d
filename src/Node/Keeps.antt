-- ===== src/Node/Keeps.antt =====
-- Invariants and postconditions of methods, one rule for each way to build a method.
use csi_driver_rclone.Prelude.{◌≡◌, Bool, true, false, Result, ok, err, ◌∷◌, if◌then◌else◌}
use csi_driver_rclone.Text.{Text}
use csi_driver_rclone.Status.{Code}
use csi_driver_rclone.Node.Calls.{Call, Trace, Node}
use csi_driver_rclone.Node.Monad.{
  M, continue, ◌>>=◌, pure, raise, lift, perform, tell, observe, wrapped, ignored, on_failure,
  or_clean,
}

-- `m` keeps `P`, whether it returns or fails.
pub record Keeps {ℓ} {E A : Type 0} (P : Node → Type ℓ) (m : M E A) : Type ℓ where
  pub at : (s : Node) → P s → P (m s).1

abbrev pub Post {ℓ} : {E A : Type 0} → (Node → Type ℓ) → Result E A × Node → Type ℓ
Post Q (ok a, s) = Q s
Post Q (err e, s) = Unit

-- From a state with `P`, where `m` returns a value, the state has `Q`.
pub record Triple {ℓ} {E A : Type 0} (P : Node → Type ℓ) (m : M E A) (Q : Node → Type ℓ)
    : Type ℓ where
  pub run : (s : Node) → P s → Post Q (m s)

-- The state with one more call on its trace.
abbrev pub called : Call → Node → Node
called c s = record s { trace = c ∷ s.trace }

-- One call leaves `P` as it is.
pub record Stable {ℓ} (P : Node → Type ℓ) (c : Call) : Type ℓ where
  pub after : (s : Node) → P s → P (called c s)

module _ {ℓ} {E A : Type 0} {P : Node → Type ℓ} where
  pub Keeps-pure : (a : A) → Keeps P (pure {E = E} a)
  Keeps-pure a = record { at = λ s h. h }

  pub Keeps-raise : (e : E) → Keeps P (raise {A = A} e)
  Keeps-raise e = record { at = λ s h. h }

  pub Keeps-lift : (r : Result E A) → Keeps P (lift r)
  Keeps-lift r = record { at = λ s h. h }

  pub Keeps-perform : (c : Call) (f : Trace → Result E A) → Stable P c → Keeps P (perform c f)
  unfolding perform
  Keeps-perform c f st = record { at = λ s h. st.after s h }

  pub Keeps-observe : (c : Call) (f : Trace → A) → Stable P c → Keeps P (observe {E = E} c f)
  unfolding observe
  Keeps-observe c f st = record { at = λ s h. st.after s h }

  pub Keeps-if : (b : Bool) (m n : M E A) → Keeps P m → Keeps P n → Keeps P (if b then m else n)
  Keeps-if true m n km kn = km
  Keeps-if false m n km kn = kn

  on_failure-keeps :
      (r : Result E A × Node) (clean : M E Unit) → P r.1 → Keeps P clean → P (on_failure r clean).1
  on_failure-keeps (ok a, s) clean h k = h
  on_failure-keeps (err e, s) clean h k = k.at s h

  pub Keeps-or_clean :
      (m : M E A) (clean : M E Unit) → Keeps P m → Keeps P clean → Keeps P (or_clean m clean)
  Keeps-or_clean m clean km kc = record { at = λ s h. on_failure-keeps (m s) clean (km.at s h) kc }

  pub Keeps-Triple : (m : M E A) → Keeps P m → Triple P m P
  Keeps-Triple m k = record { run = λ s h. go (m s) (k.at s h) }
    where
      go : (r : Result E A × Node) → P r.1 → Post P r
      go (ok a, s) h = h
      go (err e, s) h = tt

module _ {ℓ} {P : Node → Type ℓ} where
  pub Keeps-tell : {E : Type 0} (c : Call) → Stable P c → Keeps P (tell {E = E} c)
  unfolding tell
  Keeps-tell c st = record { at = λ s h. st.after s h }

  pub Keeps-wrapped :
      {A : Type 0} (c : Code) (p : Text) (m : M Text A) → Keeps P m → Keeps P (wrapped c p m)
  Keeps-wrapped c p m k = record { at = λ s h. k.at s h }

  pub Keeps-ignored : {E A : Type 0} (m : M Text A) → Keeps P m → Keeps P (ignored {E = E} m)
  Keeps-ignored m k = record { at = λ s h. k.at s h }

module _ {ℓ} {E A B : Type 0} {P : Node → Type ℓ} where
  continue-keeps :
      (r : Result E A × Node) (f : A → M E B)
      → P r.1
      → ((a : A) → Keeps P (f a))
      → P (continue r f).1
  continue-keeps (ok a, s) f h k = (k a).at s h
  continue-keeps (err e, s) f h k = h

  pub Keeps-bind :
      (m : M E A) (f : A → M E B) → Keeps P m → ((a : A) → Keeps P (f a)) → Keeps P (m >>= f)
  Keeps-bind m f km kf = record { at = λ s h. continue-keeps (m s) f (km.at s h) kf }

pub ruleset keeps_rules = (
  Keeps-pure, Keeps-raise, Keeps-lift, Keeps-perform, Keeps-observe, Keeps-if, Keeps-or_clean,
  Keeps-tell, Keeps-wrapped, Keeps-ignored, Keeps-bind,
)

module _ {ℓ} {E A B : Type 0} {Q R : Node → Type ℓ} where
  continue-Post :
      (r : Result E A × Node) (f : A → M E B)
      → Post Q r
      → ((a : A) → Triple Q (f a) R)
      → Post R (continue r f)
  continue-Post (ok a, s) f h k = (k a).run s h
  continue-Post (err e, s) f h k = tt

module _ {ℓ} {E A B : Type 0} {P Q R : Node → Type ℓ} where
  pub Triple-bind :
      (m : M E A) (f : A → M E B)
      → Triple P m Q
      → ((a : A) → Triple Q (f a) R)
      → Triple P (m >>= f) R
  Triple-bind m f km kf = record { run = λ s h. continue-Post (m s) f (km.run s h) kf }

on_failure-Post {ℓ} :
    {E A : Type 0} (Q : Node → Type ℓ) (r : Result E A × Node) (clean : M E (Unit {0}))
    → Post Q r
    → Post Q (on_failure r clean)
on_failure-Post Q (ok a, s) clean h = h
on_failure-Post Q (err e, s) clean h = tt

module _ {ℓ} {E A : Type 0} {P Q : Node → Type ℓ} where
  pub Triple-or_clean :
      (m : M E A) (clean : M E Unit) → Triple P m Q → Triple P (or_clean m clean) Q
  Triple-or_clean m clean k = record { run = λ s h. on_failure-Post Q (m s) clean (k.run s h) }

-- What a returned value says of the last state.
pub Post-ok {ℓ} :
    {E A : Type 0} (Q : Node → Type ℓ) (r : Result E A × Node) {a : A}
    → r.0 ≡ ok a
    → Post Q r
    → Q r.1
Post-ok Q (ok a, s) e h = h
Post-ok Q (err x, s) e h = absurd (cc)
