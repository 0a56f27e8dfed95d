-- ===== src/Controller/Logs.antt =====
-- What `CreateVolume` logs of its parameters.
use csi_driver_rclone.Prelude.{
  ◌≡◌, refl, ◌⊎◌, inl, inr, Bool, true, subst, arith, ◌||◌, List, [], ◌∷◌, ◌++◌, if◌then◌else◌,
}
use csi_driver_rclone.Text.{Text, codes, to_lower, contains}
use csi_driver_rclone.Text.Pieces.{has_prefix-append}
use csi_driver_rclone.GoMap.{Params}

-- The keys whose values are masked.
unfoldable pub is_sensitive : Text → Bool
is_sensitive k =
    contains (to_lower k) (codes "key")
    || contains (to_lower k) (codes "secret")
    || contains (to_lower k) (codes "password")
    || contains (to_lower k) (codes "token")

-- `quote` is how `%q` prints a string.
unfoldable pub parameter_line : (Text → Text) → Text → Text → Text
unfolding is_sensitive
parameter_line quote k v =
    if is_sensitive k
    then codes "CreateVolume parameter: " ++ (quote k ++ codes " = [MASKED]")
    else codes "CreateVolume parameter: " ++ (quote k ++ (codes " = " ++ quote v))

unfoldable pub log_parameters : (Text → Text) → Params → List Text
unfolding parameter_line
log_parameters quote [] = []
log_parameters quote ((k, v) ∷ parameters) =
    parameter_line quote k v ∷ log_parameters quote parameters

-- The name of the key holds one of four words, in any case.
abbrev pub IsSecret : Text → Type 0
IsSecret k =
    (word : Text) × (u : Text) × (w : Text) × (to_lower k ≡ u ++ (word ++ w))
    × ((word ≡ codes "key")
        ⊎ ((word ≡ codes "secret") ⊎ ((word ≡ codes "password") ⊎ (word ≡ codes "token"))))

contains-within : (u p w : Text) → contains (u ++ (p ++ w)) p ≡ true
unfolding contains
contains-within [] [] [] = has_prefix-append [] []
contains-within [] [] (c ∷ w) = rw (has_prefix-append [] (c ∷ w)) refl
contains-within [] (c ∷ p) w = rw (has_prefix-append (c ∷ p) w) refl
contains-within (c ∷ u) p w = rw (contains-within u p w) (ground arith)

-- Such a key is masked.
is_sensitive-secret : (k : Text) → IsSecret k → is_sensitive k ≡ true
unfolding is_sensitive
is_sensitive-secret k (word, u, w, e, found) =
    let held : contains (to_lower k) word ≡ true = rw e (contains-within u word w) in
    elim found [
      | inl q ↦
          let here = subst (λ x. contains (to_lower k) x ≡ true) q held in ground (arith, here)
      | inr (inl q) ↦
          let here = subst (λ x. contains (to_lower k) x ≡ true) q held in ground (arith, here)
      | inr (inr (inl q)) ↦
          let here = subst (λ x. contains (to_lower k) x ≡ true) q held in ground (arith, here)
      | inr (inr (inr q)) ↦
          let here = subst (λ x. contains (to_lower k) x ≡ true) q held in ground (arith, here)
    ]

-- The same keys in the same order, with values that differ at most where the key is secret.
abbrev pub SameButMasked : Params → Params → Type 0
SameButMasked [] [] = Unit
SameButMasked ((k, v) ∷ m) ((j, w) ∷ n) = (k ≡ j) × (IsSecret k ⊎ (v ≡ w)) × SameButMasked m n
SameButMasked _ _ = ⊥

line_eq :
    (quote : Text → Text) (k j v w : Text)
    → k ≡ j
    → IsSecret k ⊎ (v ≡ w)
    → parameter_line quote k v ≡ parameter_line quote j w
unfolding parameter_line
line_eq quote k j v w e (inl h) = rw (← e) (rw (is_sensitive-secret k h) refl)
line_eq quote k j v w e (inr h) = rw (e, h) refl

-- The lines that are logged of the parameters say nothing of the value of a key whose name holds
-- "key", "secret", "password" or "token" in any case: other values there give the same lines.
pub log_parameters-masked :
    (quote : Text → Text) (m n : Params)
    → SameButMasked m n
    → log_parameters quote m ≡ log_parameters quote n
unfolding log_parameters
log_parameters-masked quote [] [] h = refl
log_parameters-masked quote ((k, v) ∷ m) ((j, w) ∷ n) (e, s, h) =
    rw (line_eq quote k j v w e s, log_parameters-masked quote m n h) refl
log_parameters-masked quote [] (x ∷ n) h = absurd h
log_parameters-masked quote (x ∷ m) [] h = absurd h
