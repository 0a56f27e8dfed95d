-- ===== src/Locks/Abstract.antt =====
-- What the locks promise: a map from keys to whether they are held, that each call reads and sets.
use mathlib.Core.Path.{fun_ext}
use csi_driver_rclone.Prelude.{
  ◌≡◌, refl, arith, Bool, true, false, List, [], ◌∷◌, if◌then◌else◌, Bool-cases, inl, inr,
}
use csi_driver_rclone.Text.{Text, text_eq}
use csi_driver_rclone.Text.Eq.{text_eq_iff}
use csi_driver_rclone.Locks.{VolumeLocks, has, try_acquire, release}
use csi_driver_rclone.Locks.Laws.{has-delete}

pub data Call : Type 0 where
  try_call : (volume_id : Text) → Call
  release_call : (volume_id : Text) → Call

-- The answers of a sequence of calls; `Release` has none.
unfoldable pub run : List Call → VolumeLocks → List Bool
run [] vl = []
run (try_call k ∷ calls) vl = (try_acquire vl k).0 ∷ run calls (try_acquire vl k).1
run (release_call k ∷ calls) vl = run calls (release vl k)

abbrev pub update : (Text → Bool) → Text → Bool → Text → Bool
update held k b j = if text_eq k j then b else held j

-- The same calls on the map: an attempt succeeds where the key is free, and the key is held after it.
pub replay : List Call → (Text → Bool) → List Bool
replay [] held = []
replay (try_call k ∷ calls) held =
    let rest = replay calls (update held k true) in (if held k then false else true) ∷ rest
replay (release_call k ∷ calls) held = replay calls (update held k false)

has-acquired :
    (vl : VolumeLocks) (k j : Text)
    → has (try_acquire vl k).1.locks j ≡ update (has vl.locks) k true j
unfolding try_acquire has
has-acquired vl k j = elim (Bool-cases (has vl.locks k)) [
  | inl busy ↦ rw busy (ground (arith, text_eq_iff k j))
  | inr free ↦ rw free (ground arith)
]

has-released :
    (vl : VolumeLocks) (k j : Text) → has (release vl k).locks j ≡ update (has vl.locks) k false j
unfolding release
has-released vl k j = has-delete vl.locks k j

answer :
    (vl : VolumeLocks) (k : Text) → (try_acquire vl k).0 ≡ (if has vl.locks k then false else true)
unfolding try_acquire
answer vl k = elim (Bool-cases (has vl.locks k)) [
  | inl busy ↦ rw busy refl
  | inr free ↦ rw free refl
]

-- For every sequence of calls, the locks give the answers of the abstract map.
pub run_refines :
    (calls : List Call) (vl : VolumeLocks) → run calls vl ≡ replay calls (has vl.locks)
unfolding run replay
run_refines [] vl = refl
run_refines (try_call k ∷ calls) vl =
    rw (answer vl k, run_refines calls (try_acquire vl k).1, fun_ext (has-acquired vl k)) refl
run_refines (release_call k ∷ calls) vl =
    rw (run_refines calls (release vl k), fun_ext (has-released vl k)) refl
