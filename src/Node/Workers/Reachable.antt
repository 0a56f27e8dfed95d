-- ===== src/Node/Workers/Reachable.antt =====
-- The states that workers lead to from the start of the node service, in whatever order their stages
-- run.
use csi_driver_rclone.Prelude.{ℕ, none, ◌≡◌, if◌then◌else◌, ◌==◌}
use csi_driver_rclone.Text.{Text}
use csi_driver_rclone.GoMap.{get}
use csi_driver_rclone.Version.{Build}
use csi_driver_rclone.Driver.{Driver, DriverOptions, new_driver}
use csi_driver_rclone.Node.History.{new_node_server}
use csi_driver_rclone.Csi.{NodePublishVolumeRequest, NodeUnpublishVolumeRequest}
use csi_driver_rclone.Node.Calls.{Env, Node}
use csi_driver_rclone.Node.Workers.{
  Stage, idle, publish_requested, publish_locked, publish_prepared, publish_loaded, publish_failed,
  publish_mounted, unpublish_requested, unpublish_locked, unpublish_read, unpublish_unmounted,
  unpublish_cleared, unpublish_cleaned, releasing, answered, stage_step,
}

-- The node server and its workers.
pub record System : Type 0 where
  pub node : Node
  pub stage : ℕ → Stage

abbrev pub set_stage : (ℕ → Stage) → ℕ → Stage → ℕ → Stage
set_stage stage i p j = if i == j then p else stage j

-- What a worker has to do with the locks: nothing, or it is about to ask for the lock of a volume and a
-- target, or it has that lock.
pub data Phase : Type 0 where
  away : Phase
  asking busy : (volume_id target : Text) → Phase

abbrev pub phase : Stage → Phase
phase idle = away
phase (publish_requested req) = asking req.volume_id req.target_path
phase (publish_locked req capability) = busy req.volume_id req.target_path
phase (publish_prepared req pvp options) = busy req.volume_id req.target_path
phase (publish_loaded req pvp options remotes) = busy req.volume_id req.target_path
phase (publish_failed req remotes e) = busy req.volume_id req.target_path
phase (publish_mounted req mc) = busy req.volume_id req.target_path
phase (unpublish_requested req) = asking req.volume_id req.target_path
phase (unpublish_locked req) = busy req.volume_id req.target_path
phase (unpublish_read req mc) = busy req.volume_id req.target_path
phase (unpublish_unmounted req mc) = busy req.volume_id req.target_path
phase (unpublish_cleared req) = busy req.volume_id req.target_path
phase (unpublish_cleaned req) = busy req.volume_id req.target_path
phase (releasing volume_id target answer) = busy volume_id target
phase (answered answer) = away

-- A publish request goes on only where its target has no context.
abbrev pub Admissible : Stage → Node → Type 0
Admissible (publish_requested req) s = get s.mount_context req.target_path ≡ none
Admissible _ s = Unit

abbrev pub move_stage : System → ℕ → Stage × Node → System
move_stage s i (p, node) = record { node = node; stage = set_stage s.stage i p }

-- A worker begins with a request, or goes on by a stage. A target is the target of one volume.
pub data Step (env : Env) (volume_of : Text → Text) (s : System) : System → Type 0 where
  begin_publish :
      (i : ℕ) (req : NodePublishVolumeRequest)
      → s.stage i ≡ idle
      → req.volume_id ≡ volume_of req.target_path
      → Step env volume_of s (move_stage s i (publish_requested req, s.node))
  begin_unpublish :
      (i : ℕ) (req : NodeUnpublishVolumeRequest)
      → s.stage i ≡ idle
      → req.volume_id ≡ volume_of req.target_path
      → Step env volume_of s (move_stage s i (unpublish_requested req, s.node))
  go_on :
      (i : ℕ) (p : Stage)
      → s.stage i ≡ p
      → Admissible p s.node
      → Step env volume_of s (move_stage s i (stage_step env p s.node))

abbrev pub at_start : Driver → System
at_start d = record { node = new_node_server d; stage = λ i. idle }

-- The states that workers lead to from the start of the node service.
pub data Reach (env : Env) (volume_of : Text → Text) (b : Build) (options : DriverOptions)
    : System → Type 0 where
  start : Reach env volume_of b options (at_start (new_driver b options))
  next :
      {s t : System}
      → Reach env volume_of b options s
      → Step env volume_of s t
      → Reach env volume_of b options t
