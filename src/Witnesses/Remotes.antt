-- ===== src/Witnesses/Remotes.antt =====
-- Sections of the config and their owners, on small inputs.
use csi_driver_rclone.Prelude.{
  ◌≡◌, refl, arith, true, false, some, none, [], ◌∷◌, Option, subst, if◌then◌else◌, Bool,
}
use csi_driver_rclone.Text.{codes, text_eq}
use csi_driver_rclone.GoMap.{get}
use csi_driver_rclone.Locks.{has}
use csi_driver_rclone.Node.Calls.{Node, MountContext, MountPoint, set_value}
use csi_driver_rclone.Node.Volume.{node_publish_volume, node_unpublish_volume}
use csi_driver_rclone.Node.Volume.Remotes.{IsOwned}
use csi_driver_rclone.Node.Volume.Remotes.Publish.{node_publish_volume-IsOwned}
use csi_driver_rclone.Node.Volume.Remotes.Unpublish.{node_unpublish_volume-IsOwned}
use csi_driver_rclone.Witnesses.Sample.{sample_env, sample_node, sample_publish, sample_unpublish}
use csi_driver_rclone.Witnesses.Metrics.{point_context, sample_point}

sample_node-IsOwned : IsOwned sample_node
unfolding get
sample_node-IsOwned = record { owners = λ n l. absurd (cc); points = λ t mc e. absurd (cc) }

node_publish_volume-IsOwned_example :
    IsOwned (node_publish_volume sample_env sample_publish sample_node).1
unfolding get
node_publish_volume-IsOwned_example =
    node_publish_volume-IsOwned sample_env (λ t m p. refl) sample_publish sample_node
      sample_node-IsOwned refl

-- The section `s3` stands, for the mount at the target.
abbrev owned_node : Node
owned_node = record {
  mount_context = (codes "/t", point_context 1) ∷ [];
  volume_locks = record { locks = [] };
  trace = set_value (codes "s3") (codes "type") (codes "s3") ∷ [];
}

owned_node-IsOwned : IsOwned owned_node
unfolding get has
owned_node-IsOwned = record {
  owners = λ n l. (codes "/t", point_context 1, refl, ground (arith, l));
  points = λ t mc e. point (text_eq (codes "/t") t) mc e;
}
  where
    point :
        (b : Bool) (mc : MountContext)
        → ◌≡◌ {A = Option MountContext} (if b then some (point_context 1) else none) (some mc)
        → (p : MountPoint) × (mc.mount_point ≡ some p)
    point true mc e =
        let e' : point_context 1 ≡ mc = cc in
        (sample_point 1, subst (λ c. c.mount_point ≡ some (sample_point 1)) e' refl)
    point false mc e = absurd (cc)

node_unpublish_volume-IsOwned_example :
    IsOwned (node_unpublish_volume sample_env sample_unpublish owned_node).1
node_unpublish_volume-IsOwned_example =
    node_unpublish_volume-IsOwned sample_env sample_unpublish owned_node owned_node-IsOwned
