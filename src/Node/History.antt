-- ===== src/Node/History.antt =====
-- The node service from its start (`NewNodeServer` in pkg/rclone/rclone.go) on, by the requests that it
-- has handled, one after another.
use csi_driver_rclone.Prelude.{◌≡◌, refl, ◌∙◌, ◌⊎◌, true, false, none, [], ok, Bool-cases, inl, inr}
use csi_driver_rclone.Text.{Text}
use csi_driver_rclone.GoMap.{Params, get}
use csi_driver_rclone.Locks.{has}
use csi_driver_rclone.Csi.{NodePublishVolumeRequest, NodeUnpublishVolumeRequest}
use csi_driver_rclone.Version.{Build}
use csi_driver_rclone.Driver.{Driver, DriverOptions, new_driver}
use csi_driver_rclone.Node.Calls.{Env, Node, Trace}
use csi_driver_rclone.Node.Effects.{live}
use csi_driver_rclone.Node.Volume.{node_publish_volume, node_unpublish_volume}
use csi_driver_rclone.Node.Volume.Requests.{node_publish_volume-locks, node_unpublish_volume-locks}
use csi_driver_rclone.Node.Volume.Remotes.{IsOwned}
use csi_driver_rclone.Node.Volume.Remotes.Publish.{node_publish_volume-IsOwned}
use csi_driver_rclone.Node.Volume.Remotes.Unpublish.{node_unpublish_volume-IsOwned}

-- No call has been made yet.
unfoldable pub new_node_server : Driver → Node
new_node_server d = record { mount_context = []; volume_locks = d.volume_locks; trace = [] }

-- The states that requests lead to. A volume is published only at a target that has no context.
pub data History (env : Env) (b : Build) (options : DriverOptions) : Node → Type 0 where
  started : History env b options (new_node_server (new_driver b options))
  published :
      {s : Node}
      → History env b options s
      → (req : NodePublishVolumeRequest) → get s.mount_context req.target_path ≡ none
      → History env b options (node_publish_volume env req s).1
  unpublished :
      {s : Node}
      → History env b options s
      → (req : NodeUnpublishVolumeRequest)
      → History env b options (node_unpublish_volume env req s).1

new-IsOwned : (d : Driver) → IsOwned (new_node_server d)
unfolding new_node_server get
new-IsOwned d = record { owners = λ n l. absurd (cc); points = λ t mc e. absurd (cc) }

new-locks :
    (b : Build) (options : DriverOptions) (j : Text)
    → has (new_node_server (new_driver b options)).volume_locks.locks j ≡ false
unfolding new_node_server new_driver has
new-locks b options j = refl

module _ (env : Env) (b : Build) (options : DriverOptions) where
  History-locks :
      {s : Node} → History env b options s → (j : Text) → has s.volume_locks.locks j ≡ false
  History-locks started j = new-locks b options j
  History-locks (published {s} h req fresh) j =
      node_publish_volume-locks env req s j ∙ History-locks h j
  History-locks (unpublished {s} h req) j =
      node_unpublish_volume-locks env req s j ∙ History-locks h j

  module _
      (updates : (t : Trace) (n : Text) (p : Params) → env.on_update_remote t n p ≡ ok tt) where
    History-IsOwned : {s : Node} → History env b options s → IsOwned s
    History-IsOwned started = new-IsOwned (new_driver b options)
    History-IsOwned (published {s} h req fresh) =
        node_publish_volume-IsOwned env updates req s (History-IsOwned h) fresh
    History-IsOwned (unpublished {s} h req) =
        node_unpublish_volume-IsOwned env req s (History-IsOwned h)

    -- After any sequence of publish requests, each for a target without a context, and unpublish
    -- requests, handled one after another from the start of the node service, whatever each of them
    -- returned, every lock is free; and where no context is left, no section stands in rclone's
    -- config, provided that rclone updates every remote.
    pub nothing_left :
        {s : Node}
        → History env b options s
        → ((target : Text) → get s.mount_context target ≡ none)
        → (n : Text) → (has s.volume_locks.locks n ≡ false) × (live s.trace n ≡ false)
    nothing_left {s} h empty n = (History-locks h n, go (Bool-cases (live s.trace n)))
      where
        go : (live s.trace n ≡ true) ⊎ (live s.trace n ≡ false) → live s.trace n ≡ false
        go (inl l) =
            let (target, mc, e, o) = (History-IsOwned h).owners n l in
            let e' = empty target in absurd (cc)
        go (inr d) = d
