-- ===== src/Node/Volume/Mounts.antt =====
-- Each publish request that succeeds mounts the volume, once.
use csi_driver_rclone.Prelude.{suc, ◌≡◌, refl, ap, sym, false, ok, length, [], ◌∷◌}
use csi_driver_rclone.Text.{is_empty}
use csi_driver_rclone.Status.{Status}
use csi_driver_rclone.Csi.{NodePublishVolumeRequest}
use csi_driver_rclone.Node.Calls.{Env, Node, Trace, mount}
use csi_driver_rclone.Node.Effects.{mounts, mounted}
use csi_driver_rclone.Node.Volume.{node_publish_volume}
use csi_driver_rclone.Node.Volume.Published.Laws.{node_publish_volume-ok}

length-mounted : (t : Trace) → mounts t ≡ length (mounted t)
length-mounted [] = refl
length-mounted (mount m p f ∷ t) = ap suc (length-mounted t)
length-mounted (_ ∷ t) = length-mounted t

-- A publish request that succeeds has asked for exactly one mount, also where the target was mounted
-- already: provided that every error has a text that is not empty, as gRPC's have.
pub node_publish_volume-mounts :
    (env : Env) (req : NodePublishVolumeRequest) (s : Node)
    → ((e : Status) → is_empty (env.status_text e) ≡ false)
    → (node_publish_volume env req s).0 ≡ ok tt
    → mounts (node_publish_volume env req s).1.trace ≡ suc (mounts s.trace)
node_publish_volume-mounts env req s texts done =
    rw
      (
        length-mounted (node_publish_volume env req s).1.trace,
        (node_publish_volume-ok env req s texts done).mounts,
      )
      (ap suc (sym (length-mounted s.trace)))
