-- ===== src/Text.antt =====
-- Go strings and the functions of the standard package `strings` that the driver calls.
--
-- A string is the list of its code points; the driver's names, flags and paths are ASCII, where
-- these are the bytes, and where lower case is the shift of the 26 capital letters.
pub mod Eq
pub mod Lower
pub mod Pieces
pub mod Replace
use Prim.Native.Char.{code}
use Prim.Native.String.{String}
use csi_driver_rclone.Prelude.{
  ℕ, zero, suc, ◌+◌, ◌-◌, Bool, true, false, ◌&&◌, ◌||◌, Option, none, some, List, [], ◌∷◌, ◌++◌,
  map, ltb, leb, ◌==◌, if◌then◌else◌, length,
}

abbrev pub Text : Type 0
Text = List ℕ

abbrev pub codes : String → Text
codes String.[] = []
codes (String.◌∷◌ c s) = code c ∷ codes s

-- `s == t`
unfoldable pub text_eq : Text → Text → Bool
text_eq [] [] = true
text_eq [] (d ∷ t) = false
text_eq (c ∷ s) [] = false
text_eq (c ∷ s) (d ∷ t) = c == d && text_eq s t

-- `s == ""`
abbrev pub is_empty : Text → Bool
is_empty [] = true
is_empty (c ∷ s) = false

unfoldable pub to_lower_rune : ℕ → ℕ
to_lower_rune c = if leb b'A' c && leb c b'Z' then c + 32 else c

-- `strings.ToLower`
unfoldable pub to_lower : Text → Text
unfolding to_lower_rune
to_lower s = map to_lower_rune s

-- `strings.EqualFold`
unfoldable pub equal_fold : Text → Text → Bool
unfolding to_lower text_eq
equal_fold s t = text_eq (to_lower s) (to_lower t)

-- `strings.HasPrefix`
unfoldable pub has_prefix : Text → Text → Bool
has_prefix s [] = true
has_prefix [] (d ∷ p) = false
has_prefix (c ∷ s) (d ∷ p) = c == d && has_prefix s p

-- `s[n:]`
unfoldable pub drop : ℕ → Text → Text
drop zero s = s
drop (suc n) [] = []
drop (suc n) (c ∷ s) = drop n s

-- `s[:n]`
unfoldable pub take : ℕ → Text → Text
take zero s = []
take (suc n) [] = []
take (suc n) (c ∷ s) = c ∷ take n s

-- `strings.TrimPrefix`
unfoldable pub trim_prefix : Text → Text → Text
unfolding has_prefix drop
trim_prefix s p = if has_prefix s p then drop (length p) s else s

-- `strings.Contains`
unfoldable pub contains : Text → Text → Bool
unfolding has_prefix
contains [] p = has_prefix [] p
contains (c ∷ s) p = has_prefix (c ∷ s) p || contains s p

-- The first argument counts the characters of a match that are still to be passed over.
unfoldable pub replace_from : ℕ → Text → Text → Text → Text
unfolding has_prefix
replace_from n [] old new = []
replace_from (suc n) (c ∷ s) old new = replace_from n s old new
replace_from zero (c ∷ s) old new = elim (has_prefix (c ∷ s) old) [
  | true ↦ new ++ replace_from (length old - 1) s old new
  | false ↦ c ∷ replace_from 0 s old new
]

unfoldable pub insert_between : Text → Text → Text
insert_between [] new = new
insert_between (c ∷ s) new = new ++ c ∷ insert_between s new

-- `strings.ReplaceAll`; an empty `old` matches before each character and at the end
unfoldable pub replace_all : Text → Text → Text → Text
unfolding replace_from insert_between
replace_all s [] new = insert_between s new
replace_all s (d ∷ old) new = replace_from 0 s (d ∷ old) new

unfoldable pub push : ℕ → List Text → List Text
push c [] = (c ∷ []) ∷ []
push c (p ∷ ps) = (c ∷ p) ∷ ps

-- `strings.Split` at a separator of one character
unfoldable pub split : Text → ℕ → List Text
unfolding push
split [] sep = [] ∷ []
split (c ∷ s) sep = let rest = split s sep in if c == sep then [] ∷ rest else push c rest

unfoldable pub push_first : ℕ → Option (Text × Text) → Option (Text × Text)
push_first c none = none
push_first c (some (a, b)) = some (c ∷ a, b)

-- The texts before and after the first occurrence of `sep`, which is not empty.
unfoldable pub cut_at : Text → Text → Option (Text × Text)
unfolding has_prefix drop push_first
cut_at [] sep = none
cut_at (c ∷ s) sep =
    let later = push_first c (cut_at s sep) in
    if has_prefix (c ∷ s) sep then some ([], drop (length sep) (c ∷ s)) else later

-- `strings.SplitN(s, sep, 2)`
unfoldable pub split_n2 : Text → Text → List Text
unfolding cut_at
split_n2 s sep = elim (cut_at s sep) [ none ↦ s ∷ [] | some (a, b) ↦ a ∷ b ∷ [] ]

unfoldable pub is_space : ℕ → Bool
is_space c = (leb 9 c && leb c 13) || c == 32

unfoldable pub trim_left : Text → Text
unfolding is_space
trim_left [] = []
trim_left (c ∷ s) = let rest = trim_left s in if is_space c then rest else c ∷ s

unfoldable pub trim_right : Text → Text
unfolding is_space
trim_right [] = []
trim_right (c ∷ s) = let rest = trim_right s in if is_space c && is_empty rest then [] else c ∷ rest

-- `strings.TrimSpace`
unfoldable pub trim_space : Text → Text
unfolding trim_left trim_right
trim_space s = trim_right (trim_left s)
