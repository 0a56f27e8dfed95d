-- ===== src/Locks/Key.antt =====
-- Which requests share a lock key.
use mathlib.Core.List.{append_cancel_right}
use csi_driver_rclone.Prelude.{
  ◌≡◌, ap, arith, [], ◌∷◌, ◌++◌, Option, some, All-append, append_assoc, sym, ◌∙◌,
}
use csi_driver_rclone.Text.{Text, codes, cut_at}
use csi_driver_rclone.Text.Pieces.{Lacks, cut_at-append}
use csi_driver_rclone.Locks.{lock_key}

lock_key_cut :
    (v p : Text)
    → Lacks b'/' v
    → cut_at (lock_key v (b'/' ∷ p)) (codes "/") ≡ some (v ++ b'-' ∷ [], p)
unfolding lock_key
lock_key_cut v p h =
    rw (← append_assoc v (codes "-") (b'/' ∷ p))
      (cut_at-append b'/' (v ++ b'-' ∷ []) p (All-append _ v (b'-' ∷ []) h (omega arith)))

-- Two requests whose volume IDs hold no slash and whose target paths are absolute share a lock key
-- only if they have the same volume ID and the same target path.
pub lock_key-injective :
    (v p v' p' : Text)
    → Lacks b'/' v
    → Lacks b'/' v'
    → lock_key v (b'/' ∷ p) ≡ lock_key v' (b'/' ∷ p')
    → (v ≡ v') × (p ≡ p')
lock_key-injective v p v' p' h h' e =
    let same : ◌≡◌ {A = Option (Text × Text)} (some (v ++ b'-' ∷ [], p))
        (some (v' ++ b'-' ∷ [], p')) =
      sym (lock_key_cut v p h) ∙ (ap (λ k. cut_at k (codes "/")) e ∙ lock_key_cut v' p' h') in
    (append_cancel_right v v' (b'-' ∷ []) (cc), cc)
