-- ===== src/Prelude/Results.antt =====
-- Go's `(value, error)` pairs, for an error of any type.
use mathlib.Core.Path.{◌≡◌, subst}
use mathlib.Core.Bool.{Bool, true, false}

pub data Result {ℓ κ} (E : Type ℓ) (A : Type κ) : Type (ℓ ⊔ κ) where
  ok : A → Result E A
  err : E → Result E A

infixl 5 ◌>>=◌ ◌>>◌
abbrev pub ◌>>=◌ {ℓ κ μ} :
    {E : Type ℓ} {A : Type κ} {B : Type μ} → Result E A → (A → Result E B) → Result E B
ok a >>= f = f a
err e >>= f = err e

abbrev pub ◌>>◌ {ℓ μ} : {E : Type ℓ} {B : Type μ} → Result E (Unit {0}) → Result E B → Result E B
m >> k = m >>= λ _. k

-- `if test { return err }`
abbrev pub fail_if {ℓ} : {E : Type ℓ} → Bool → E → Result E (Unit {0})
fail_if true e = err e
fail_if false e = ok tt

-- `P` holds of the value, if there is no error.
abbrev pub Holds {ℓ κ μ} : {E : Type ℓ} {A : Type κ} → (A → Type μ) → Result E A → Type μ
Holds P (ok a) = P a
Holds P (err e) = Unit

pub Holds-ok {ℓ κ μ} :
    {E : Type ℓ} {A : Type κ} (P : A → Type μ) {r : Result E A} {a : A} → r ≡ ok a → Holds P r → P a
Holds-ok P e h = subst (Holds P) e h

pub Holds-map {ℓ κ μ ν} :
    {E : Type ℓ} {A : Type κ} (P : A → Type μ) (Q : A → Type ν) (r : Result E A)
    → ((a : A) → P a → Q a)
    → Holds P r
    → Holds Q r
Holds-map P Q (ok a) f h = f a h
Holds-map P Q (err e) f h = tt
