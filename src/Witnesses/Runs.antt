-- ===== src/Witnesses/Runs.antt =====
-- Requests that are run to their end: what the examples ask of their answers.
use csi_driver_rclone.Prelude.{◌≡◌, refl, true, [], ◌∷◌, Result, ok, err}
use csi_driver_rclone.Text.{codes, text_eq}
use csi_driver_rclone.Status.{Status}
use csi_driver_rclone.Csi.{NodePublishVolumeRequest}
use csi_driver_rclone.Locks.{has, try_acquire, release, lock_key}
use csi_driver_rclone.Driver.{DriverOptions, default_driver_name}
use csi_driver_rclone.Controller.{
  CreateVolumeRequest, Volume, create_volume, create_volume_id, create_volume_context,
  is_valid_volume_capabilities, check_no_block, read_parameters, read_parameter, read_init,
  resolved_path, replace_with_map,
}
use csi_driver_rclone.Node.Calls.{Env, Node, set_value}
use csi_driver_rclone.Node.Effects.{live}
use csi_driver_rclone.Node.Volume.{
  node_publish_volume, node_unpublish_volume, validate_publish_volume_request,
  validate_unpublish_volume_request, unpublish_body, unmount_target, unmount_volume, unmount_point,
  delete_mount_context, get_mount_context,
}
use csi_driver_rclone.Node.Sync.{wait_for_vfs_cache_sync, sync_loop, all_clear, clock, back_off}
use csi_driver_rclone.Node.Config.{delete_sections, cleanup_config_remotes}
use csi_driver_rclone.GoMap
use csi_driver_rclone.Text.{
  to_lower_rune, to_lower, has_prefix, drop, trim_prefix, replace_all, replace_from, split,
  trim_space, contains, push,
}
use csi_driver_rclone.GoMap.{put, get, put_all, value}
use csi_driver_rclone.Flags.{normalize_rclone_flag, sanitize_flag}
use csi_driver_rclone.Params.{
  reserved_params, copy_params, extract_publish_params, merge_volume_parameters,
  generate_config_data, build_fs_path, extract_volume_mount_options, generated,
  extract_remote_type_params, collect_type_params, set_options, set_option, set_pair, merge_copy,
}
use csi_driver_rclone.Locks
use csi_driver_rclone.Node.Monad.{observe, perform, tell}
use csi_driver_rclone.Node.Target.{prepare_target_directory, ensure_directory, finish_target}
use csi_driver_rclone.Node.Config.{
  load_rclone_config, load_remotes, load_values, update_typed, parse_all_config_remotes,
  all_sections, section_values,
}
use csi_driver_rclone.Node.Mount.{
  create_and_mount_filesystem, mount_steps, plan_mount, mount_fs, set_rclone_config_flags,
  handle_rclone_daemon, wait_for_daemon,
}
use csi_driver_rclone.Node.Mount.Options.{
  config_info, global_options, extract_mount_options, extract_vfs_options, override_options,
  resolve_mount_method,
}
use csi_driver_rclone.Node.Volume.{
  with_volume_lock, publish_body, mount_volume, mount_loaded, set_mount_context,
}
use csi_driver_rclone.Witnesses.Sample.{
  sample_env, sample_capability, sample_context, sample_publish, sample_unpublish, sample_node,
}
use csi_driver_rclone.Witnesses.Metrics.{point_context}

abbrev pub sample_options : DriverOptions
sample_options = record {
  node_id = codes "n";
  driver_name = default_driver_name;
  endpoint = codes "unix://tmp/csi.sock";
}

-- Two targets whose contexts name the section `s3`.
abbrev pub shared_node : Node
shared_node = record {
  mount_context = (codes "/t", point_context 1) ∷ (codes "/t2", point_context 2) ∷ [];
  volume_locks = record { locks = [] };
  trace = set_value (codes "s3") (codes "type") (codes "s3") ∷ [];
}

-- The section `b2` stands already, and every mount fails.
abbrev pub failing_env : Env
failing_env = record sample_env { on_mount = λ t p. err (codes "no fuse") }

abbrev pub b2_node : Node
b2_node = record {
  mount_context = [];
  volume_locks = record { locks = [] };
  trace = set_value (codes "b2") (codes "type") (codes "b2") ∷ [];
}

abbrev pub claim_request : CreateVolumeRequest
claim_request = record {
  name = codes "pvc-1";
  volume_capabilities = sample_capability ∷ [];
  parameters =
      (codes "remotePath", codes "b/${pvc.metadata.name}")
      ∷ (codes "csi.storage.k8s.io/pvc/name", codes "data")
      ∷ sample_context;
}

abbrev pub claimed_volume : Volume
claimed_volume = record {
  volume_id = codes "s3#pvc-1";
  volume_context = create_volume_context claim_request.parameters (codes "b/data");
}

abbrev pub claimed_publish : NodePublishVolumeRequest
claimed_publish = record sample_publish { volume_context = claimed_volume.volume_context }

abbrev pub Answer : Type 0
Answer = Result Status (Unit {0})

-- What the runs come to.
pub record Answers : Type 0 where
  pub published : (node_publish_volume sample_env sample_publish sample_node).0 ≡ ok tt
  pub unpublished :
      (node_unpublish_volume sample_env sample_unpublish
        (node_publish_volume sample_env sample_publish sample_node).1).0
      ≡ ok tt
  pub shared : (node_unpublish_volume sample_env sample_unpublish shared_node).0 ≡ ok tt
  pub failed : (e : Status) × ((node_publish_volume failing_env sample_publish b2_node).0 ≡ err e)
  pub kept :
      live (node_publish_volume failing_env sample_publish b2_node).1.trace (codes "b2") ≡ true
  pub created : create_volume (λ m. m) claim_request ≡ ok claimed_volume
  pub resolved :
      resolved_path (λ m. m) (read_parameters read_init claim_request.parameters) ≡ codes "b/data"
  pub claimed : (node_publish_volume sample_env claimed_publish sample_node).0 ≡ ok tt

pub answers : Answers
unfolding node_publish_volume validate_publish_volume_request with_volume_lock try_acquire release
    lock_key has Locks.delete publish_body merge_volume_parameters put_all put get value text_eq
    extract_publish_params copy_params reserved_params normalize_rclone_flag trim_prefix has_prefix
    drop replace_all replace_from to_lower to_lower_rune prepare_target_directory ensure_directory
    finish_target observe perform tell mount_volume generate_config_data generated
    load_rclone_config load_remotes load_values update_typed parse_all_config_remotes all_sections
    section_values extract_remote_type_params collect_type_params sanitize_flag mount_loaded
    create_and_mount_filesystem mount_steps plan_mount mount_fs extract_volume_mount_options
    set_options set_option set_pair contains merge_copy set_rclone_config_flags config_info
    global_options split push extract_mount_options extract_vfs_options override_options
    resolve_mount_method handle_rclone_daemon wait_for_daemon set_mount_context build_fs_path
    node_unpublish_volume validate_unpublish_volume_request unpublish_body unmount_target
    unmount_volume unmount_point delete_mount_context get_mount_context wait_for_vfs_cache_sync
    sync_loop all_clear clock back_off delete_sections GoMap.delete cleanup_config_remotes
    create_volume create_volume_id create_volume_context is_valid_volume_capabilities check_no_block
    read_parameters read_parameter resolved_path replace_with_map trim_space
answers = record {
  published = refl;
  unpublished = refl;
  shared = refl;
  failed = (_, refl);
  kept = refl;
  created = refl;
  resolved = refl;
  claimed = refl;
}
