-- ===== src/Witnesses/Sample.antt =====
-- An environment, a state and requests for the examples.
use csi_driver_rclone.Prelude.{true, false, none, some, [], ◌∷◌, ◌++◌, ok, pos}
use csi_driver_rclone.Text.{codes}
use csi_driver_rclone.GoMap.{Params}
use csi_driver_rclone.Csi.{
  VolumeCapability, mount, NodePublishVolumeRequest, NodeUnpublishVolumeRequest,
}
use csi_driver_rclone.Node.Calls.{Env, Node, IniFile}

-- A config with one section, an environment in which every call succeeds and the target is mounted
-- already, and a request for that target.
abbrev pub sample_file : IniFile
sample_file = record {
  section_list = codes "DEFAULT" ∷ codes "s3" ∷ [];
  key_list = λ section. codes "type" ∷ [];
  get_value = λ section key. ok (codes "s3");
}

abbrev pub sample_env : Env
sample_env = record {
  on_is_likely_not_mount_point = λ t p. ok false;
  on_mkdir_all = λ t p. ok tt;
  on_chmod = λ t p. ok tt;
  on_read_dir = λ t p. ok tt;
  on_unmount = λ t p. ok tt;
  on_cleanup = λ t p. ok tt;
  on_update_remote = λ t n p. ok tt;
  on_set_cache_dir = λ t d. ok tt;
  on_set_temp_dir = λ t d. ok tt;
  on_reload = λ t ci. ok tt;
  on_new_fs = λ t ci p. ok tt;
  on_mount = λ t p. ok (record { id = 7; daemon = false });
  on_signal_daemon = λ t. ok tt;
  on_wait_mount_ready = λ t p d. ok tt;
  on_unmount_mount_point = λ t id. ok tt;
  on_vfs_stats = λ t id. some (record { uploads_in_progress = pos 1; uploads_queued = pos 0 });
  now = λ t. 0;
  status_text = λ e. codes "rpc error: " ++ e.message;
  load_from_reader = λ s. ok sample_file;
  is_global_option = λ k. false;
  accepts_config = λ p. ok tt;
  mount_option_names = codes "allow_other" ∷ [];
  mount_defaults = λ k. some (codes "false");
  load_mount_options =
      ok (record { device_name = []; volume_name = []; daemon = false; daemon_wait = pos 0 });
  set_mount_options = λ p o. ok o;
  vfs_option_names = [];
  vfs_defaults = λ k. none;
  load_vfs_options = ok (record { read_only = false });
  set_vfs_options = λ p o. ok o;
  on_resolve_mount_method = λ m. some (codes "mount2");
  force_unmounter = false;
}

abbrev pub sample_secrets : Params
sample_secrets = (codes "configData", codes "[s3]") ∷ (codes "remote", codes "old") ∷ []

abbrev pub sample_context : Params
sample_context = (codes "remote", codes "s3") ∷ (codes "Vfs-Cache", codes "full") ∷ []

abbrev pub sample_capability : VolumeCapability
sample_capability =
    mount (record { mount_flags = codes "debug-fuse" ∷ []; volume_mount_group = [] })

abbrev pub sample_publish : NodePublishVolumeRequest
sample_publish = record {
  volume_id = codes "v";
  target_path = codes "/t";
  volume_capability = some sample_capability;
  readonly = true;
  secrets = sample_secrets;
  volume_context = sample_context;
}

abbrev pub sample_unpublish : NodeUnpublishVolumeRequest
sample_unpublish = record { volume_id = codes "v"; target_path = codes "/t" }

abbrev pub sample_node : Node
sample_node = record { mount_context = []; volume_locks = record { locks = [] }; trace = [] }

abbrev pub busy_node : Node
busy_node = record {
  mount_context = [];
  volume_locks = record { locks = codes "v-/t" ∷ [] };
  trace = [];
}
