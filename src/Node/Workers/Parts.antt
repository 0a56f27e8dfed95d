-- ===== src/Node/Workers/Parts.antt =====
-- The part of the unmounting in which a worker deletes sections.
use csi_driver_rclone.Prelude.{
  ◌≡◌, refl, ok, Bool-cases, inl, inr, List, [], ◌∷◌, ltb, length, if◌then◌else◌,
}
use csi_driver_rclone.Text.{Text}
use csi_driver_rclone.Node.Calls.{Node, MountContext, delete_section}
use csi_driver_rclone.Node.Monad.{M, pure, tell}
use csi_driver_rclone.Node.Config.{delete_sections}

-- The deletion of the sections of a context.
abbrev pub deletes : MountContext → M Text (Unit {0})
deletes mc = if ltb 0 (length mc.remotes) then delete_sections mc.remotes else pure tt

delete_total :
    (E : Type 0) (remotes : List Text) (s : Node)
    → delete_sections {E = E} remotes s ≡ (ok tt, (delete_sections {E = E} remotes s).1)
unfolding delete_sections tell
delete_total E [] s = refl
delete_total E (n ∷ remotes) s =
    delete_total E remotes (record s { trace = delete_section n ∷ s.trace })

pub deletes_total : (mc : MountContext) (s : Node) → deletes mc s ≡ (ok tt, (deletes mc s).1)
deletes_total mc s = elim (Bool-cases (ltb 0 (length mc.remotes))) [
  | inl y ↦ rw y (delete_total Text mc.remotes s)
  | inr n ↦ rw n refl
]
