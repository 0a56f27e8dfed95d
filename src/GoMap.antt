-- ===== src/GoMap.antt =====
-- Go maps with string keys, as association lists.
--
-- The order of the list is the order in which one `range` loop visits the entries. Go leaves that
-- order open, so a statement about a loop ranges over every list, under the hypothesis `IsMap` that
-- no key stands twice.
pub mod Laws
use csi_driver_rclone.Prelude.{
  ℕ, ◌≡◌, Bool, true, false, Option, none, some, List, [], ◌∷◌, if◌then◌else◌,
}
use csi_driver_rclone.Text.{Text, text_eq}

abbrev pub GoMap {ℓ} : Type ℓ → Type ℓ
GoMap V = List (Text × V)

-- `map[string]string`
abbrev pub Params : Type 0
Params = GoMap Text

module _ {ℓ} {V : Type ℓ} where
  -- `v, ok := m[k]`
  unfoldable pub get : GoMap V → Text → Option V
  unfolding text_eq
  get [] k = none
  get ((j, v) ∷ m) k = if text_eq j k then some v else get m k

  -- `m[k] = v`
  unfoldable pub put : GoMap V → Text → V → GoMap V
  unfolding text_eq
  put [] k v = (k, v) ∷ []
  put ((j, w) ∷ m) k v = if text_eq j k then (k, v) ∷ m else (j, w) ∷ put m k v

  -- `delete(m, k)`
  unfoldable pub delete : GoMap V → Text → GoMap V
  unfolding text_eq
  delete [] k = []
  delete ((j, w) ∷ m) k = let rest = delete m k in if text_eq j k then rest else (j, w) ∷ rest

  -- `for k, v := range from { m[k] = v }`
  unfoldable pub put_all : GoMap V → GoMap V → GoMap V
  unfolding put
  put_all m [] = m
  put_all m ((k, v) ∷ from) = put_all (put m k v) from

  -- No key stands twice.
  abbrev pub IsMap : GoMap V → Type ℓ
  IsMap [] = Unit
  IsMap ((k, v) ∷ m) = (get m k ≡ none) × IsMap m

abbrev pub or_else {ℓ} : {V : Type ℓ} → Option V → Option V → Option V
or_else none o = o
or_else (some v) o = some v

abbrev pub or_empty : Option Text → Text
or_empty none = []
or_empty (some v) = v

-- `m[k]`, the empty string where the key is missing
unfoldable pub value : Params → Text → Text
unfolding get
value m k = or_empty (get m k)
