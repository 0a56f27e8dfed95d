-- ===== src/Witnesses/Interleaved.antt =====
-- Two workers, of which one is answered that its volume is busy, and the other fails to mount.
use csi_driver_rclone.Prelude.{◌≡◌, refl, true, []}
use csi_driver_rclone.Text.{codes, text_eq}
use csi_driver_rclone.Locks.{has, try_acquire, release, lock_key}
use csi_driver_rclone.Driver.{new_driver}
use csi_driver_rclone.Controller.{
  create_volume, create_volume_id, create_volume_context, is_valid_volume_capabilities,
  check_no_block, read_parameters, read_parameter, resolved_path, replace_with_map,
}
use csi_driver_rclone.Node.Effects.{live}
use csi_driver_rclone.Node.Volume.{
  node_publish_volume, node_unpublish_volume, validate_publish_volume_request,
  validate_unpublish_volume_request, unpublish_body, unmount_target, unmount_volume, unmount_point,
  delete_mount_context, get_mount_context,
}
use csi_driver_rclone.Node.Sync.{wait_for_vfs_cache_sync, sync_loop, all_clear, clock, back_off}
use csi_driver_rclone.Node.Config.{delete_sections, cleanup_config_remotes}
use csi_driver_rclone.Node.History.{new_node_server}
use csi_driver_rclone.GoMap
use csi_driver_rclone.Text.{
  to_lower_rune, to_lower, has_prefix, drop, trim_prefix, replace_all, replace_from, split,
  trim_space, contains, push,
}
use csi_driver_rclone.GoMap.{put, get, put_all, value}
use csi_driver_rclone.Flags.{normalize_rclone_flag, sanitize_flag}
use csi_driver_rclone.Params.{
  reserved_params, copy_params, extract_publish_params, merge_volume_parameters,
  generate_config_data, build_fs_path, extract_volume_mount_options, generated,
  extract_remote_type_params, collect_type_params, set_options, set_option, set_pair, merge_copy,
}
use csi_driver_rclone.Locks
use csi_driver_rclone.Node.Monad.{observe, perform, tell}
use csi_driver_rclone.Node.Target.{prepare_target_directory, ensure_directory, finish_target}
use csi_driver_rclone.Node.Config.{
  load_rclone_config, load_remotes, load_values, update_typed, parse_all_config_remotes,
  all_sections, section_values,
}
use csi_driver_rclone.Node.Mount.{
  create_and_mount_filesystem, mount_steps, plan_mount, mount_fs, set_rclone_config_flags,
  handle_rclone_daemon, wait_for_daemon,
}
use csi_driver_rclone.Node.Mount.Options.{
  config_info, global_options, extract_mount_options, extract_vfs_options, override_options,
  resolve_mount_method,
}
use csi_driver_rclone.Node.Volume.{
  with_volume_lock, publish_body, mount_volume, mount_loaded, set_mount_context,
}
use csi_driver_rclone.Witnesses.Sample.{sample_publish, sample_unpublish}
use csi_driver_rclone.Witnesses.Metrics.{sample_build}
use csi_driver_rclone.Prelude.{false, ℕ, ◌==◌, Bool-cases, inl, inr}
use csi_driver_rclone.Text.{Text}
use csi_driver_rclone.GoMap.{get}
use csi_driver_rclone.Node.Workers.{publish_requested, unpublish_requested, stage_step}
use csi_driver_rclone.Node.Workers.Reachable.{
  away, phase, System, move_stage, at_start, Reach, start, next, begin_publish, begin_unpublish,
  go_on,
}
use csi_driver_rclone.Node.Workers.Owned.{Owned}
use csi_driver_rclone.Node.Workers.Left.{Reach-Owned, nothing_left_by_workers}
use csi_driver_rclone.Witnesses.Runs.{sample_options, failing_env}

abbrev volume_v : Text → Text
volume_v target = codes "v"

-- Worker `i` goes on.
abbrev on : ℕ → System → System
on i s = move_stage s i (stage_step failing_env (s.stage i) s.node)

abbrev both_begun : System
both_begun =
    move_stage
      (move_stage (at_start (new_driver sample_build sample_options)) 0 (
        publish_requested sample_publish,
        (at_start (new_driver sample_build sample_options)).node,
      ))
      1
      (
        unpublish_requested sample_unpublish,
        (at_start (new_driver sample_build sample_options)).node,
      )

abbrev both_asked : System
both_asked = on 1 (on 0 both_begun)

abbrev loaded : System
loaded = on 0 (on 0 both_asked)

abbrev finished : System
finished = on 0 (on 0 (on 0 loaded))

abbrev Reached : System → Type 0
Reached = Reach failing_env volume_v sample_build sample_options

begun-Reached : Reached both_begun
begun-Reached =
    next (next start (begin_publish 0 sample_publish refl refl))
      (begin_unpublish 1 sample_unpublish refl refl)

asked-Reached : Reached both_asked
unfolding node_publish_volume validate_publish_volume_request with_volume_lock try_acquire release
    lock_key has Locks.delete publish_body merge_volume_parameters put_all put get value text_eq
    extract_publish_params copy_params reserved_params normalize_rclone_flag trim_prefix has_prefix
    drop replace_all replace_from to_lower to_lower_rune prepare_target_directory ensure_directory
    finish_target observe perform tell mount_volume generate_config_data generated
    load_rclone_config load_remotes load_values update_typed parse_all_config_remotes all_sections
    section_values extract_remote_type_params collect_type_params sanitize_flag mount_loaded
    create_and_mount_filesystem mount_steps plan_mount mount_fs extract_volume_mount_options
    set_options set_option set_pair contains merge_copy set_rclone_config_flags config_info
    global_options split push extract_mount_options extract_vfs_options override_options
    resolve_mount_method handle_rclone_daemon wait_for_daemon set_mount_context build_fs_path
    node_unpublish_volume validate_unpublish_volume_request unpublish_body unmount_target
    unmount_volume unmount_point delete_mount_context get_mount_context wait_for_vfs_cache_sync
    sync_loop all_clear clock back_off delete_sections GoMap.delete new_node_server new_driver
    cleanup_config_remotes create_volume create_volume_id create_volume_context
    is_valid_volume_capabilities check_no_block read_parameters read_parameter resolved_path
    replace_with_map trim_space stage_step
asked-Reached = next (next begun-Reached (go_on 0 _ refl refl)) (go_on 1 _ refl tt)

loaded-Reached : Reached loaded
unfolding node_publish_volume validate_publish_volume_request with_volume_lock try_acquire release
    lock_key has Locks.delete publish_body merge_volume_parameters put_all put get value text_eq
    extract_publish_params copy_params reserved_params normalize_rclone_flag trim_prefix has_prefix
    drop replace_all replace_from to_lower to_lower_rune prepare_target_directory ensure_directory
    finish_target observe perform tell mount_volume generate_config_data generated
    load_rclone_config load_remotes load_values update_typed parse_all_config_remotes all_sections
    section_values extract_remote_type_params collect_type_params sanitize_flag mount_loaded
    create_and_mount_filesystem mount_steps plan_mount mount_fs extract_volume_mount_options
    set_options set_option set_pair contains merge_copy set_rclone_config_flags config_info
    global_options split push extract_mount_options extract_vfs_options override_options
    resolve_mount_method handle_rclone_daemon wait_for_daemon set_mount_context build_fs_path
    node_unpublish_volume validate_unpublish_volume_request unpublish_body unmount_target
    unmount_volume unmount_point delete_mount_context get_mount_context wait_for_vfs_cache_sync
    sync_loop all_clear clock back_off delete_sections GoMap.delete new_node_server new_driver
    cleanup_config_remotes create_volume create_volume_id create_volume_context
    is_valid_volume_capabilities check_no_block read_parameters read_parameter resolved_path
    replace_with_map trim_space stage_step
loaded-Reached = next (next asked-Reached (go_on 0 _ refl tt)) (go_on 0 _ refl tt)

finished-Reached : Reached finished
unfolding node_publish_volume validate_publish_volume_request with_volume_lock try_acquire release
    lock_key has Locks.delete publish_body merge_volume_parameters put_all put get value text_eq
    extract_publish_params copy_params reserved_params normalize_rclone_flag trim_prefix has_prefix
    drop replace_all replace_from to_lower to_lower_rune prepare_target_directory ensure_directory
    finish_target observe perform tell mount_volume generate_config_data generated
    load_rclone_config load_remotes load_values update_typed parse_all_config_remotes all_sections
    section_values extract_remote_type_params collect_type_params sanitize_flag mount_loaded
    create_and_mount_filesystem mount_steps plan_mount mount_fs extract_volume_mount_options
    set_options set_option set_pair contains merge_copy set_rclone_config_flags config_info
    global_options split push extract_mount_options extract_vfs_options override_options
    resolve_mount_method handle_rclone_daemon wait_for_daemon set_mount_context build_fs_path
    node_unpublish_volume validate_unpublish_volume_request unpublish_body unmount_target
    unmount_volume unmount_point delete_mount_context get_mount_context wait_for_vfs_cache_sync
    sync_loop all_clear clock back_off delete_sections GoMap.delete new_node_server new_driver
    cleanup_config_remotes create_volume create_volume_id create_volume_context
    is_valid_volume_capabilities check_no_block read_parameters read_parameter resolved_path
    replace_with_map trim_space stage_step
finished-Reached =
    next (next (next loaded-Reached (go_on 0 _ refl tt)) (go_on 0 _ refl tt)) (go_on 0 _ refl tt)

loaded_live : live loaded.node.trace (codes "s3") ≡ true
unfolding node_publish_volume validate_publish_volume_request with_volume_lock try_acquire release
    lock_key has Locks.delete publish_body merge_volume_parameters put_all put get value text_eq
    extract_publish_params copy_params reserved_params normalize_rclone_flag trim_prefix has_prefix
    drop replace_all replace_from to_lower to_lower_rune prepare_target_directory ensure_directory
    finish_target observe perform tell mount_volume generate_config_data generated
    load_rclone_config load_remotes load_values update_typed parse_all_config_remotes all_sections
    section_values extract_remote_type_params collect_type_params sanitize_flag mount_loaded
    create_and_mount_filesystem mount_steps plan_mount mount_fs extract_volume_mount_options
    set_options set_option set_pair contains merge_copy set_rclone_config_flags config_info
    global_options split push extract_mount_options extract_vfs_options override_options
    resolve_mount_method handle_rclone_daemon wait_for_daemon set_mount_context build_fs_path
    node_unpublish_volume validate_unpublish_volume_request unpublish_body unmount_target
    unmount_volume unmount_point delete_mount_context get_mount_context wait_for_vfs_cache_sync
    sync_loop all_clear clock back_off delete_sections GoMap.delete new_node_server new_driver
    cleanup_config_remotes create_volume create_volume_id create_volume_context
    is_valid_volume_capabilities check_no_block read_parameters read_parameter resolved_path
    replace_with_map trim_space stage_step
loaded_live = refl

finished_contexts : finished.node.mount_context ≡ []
unfolding node_publish_volume validate_publish_volume_request with_volume_lock try_acquire release
    lock_key has Locks.delete publish_body merge_volume_parameters put_all put get value text_eq
    extract_publish_params copy_params reserved_params normalize_rclone_flag trim_prefix has_prefix
    drop replace_all replace_from to_lower to_lower_rune prepare_target_directory ensure_directory
    finish_target observe perform tell mount_volume generate_config_data generated
    load_rclone_config load_remotes load_values update_typed parse_all_config_remotes all_sections
    section_values extract_remote_type_params collect_type_params sanitize_flag mount_loaded
    create_and_mount_filesystem mount_steps plan_mount mount_fs extract_volume_mount_options
    set_options set_option set_pair contains merge_copy set_rclone_config_flags config_info
    global_options split push extract_mount_options extract_vfs_options override_options
    resolve_mount_method handle_rclone_daemon wait_for_daemon set_mount_context build_fs_path
    node_unpublish_volume validate_unpublish_volume_request unpublish_body unmount_target
    unmount_volume unmount_point delete_mount_context get_mount_context wait_for_vfs_cache_sync
    sync_loop all_clear clock back_off delete_sections GoMap.delete new_node_server new_driver
    cleanup_config_remotes create_volume create_volume_id create_volume_context
    is_valid_volume_capabilities check_no_block read_parameters read_parameter resolved_path
    replace_with_map trim_space stage_step
finished_contexts = refl

finished_phases : (i : ℕ) → phase (finished.stage i) ≡ away
unfolding node_publish_volume validate_publish_volume_request with_volume_lock try_acquire release
    lock_key has Locks.delete publish_body merge_volume_parameters put_all put get value text_eq
    extract_publish_params copy_params reserved_params normalize_rclone_flag trim_prefix has_prefix
    drop replace_all replace_from to_lower to_lower_rune prepare_target_directory ensure_directory
    finish_target observe perform tell mount_volume generate_config_data generated
    load_rclone_config load_remotes load_values update_typed parse_all_config_remotes all_sections
    section_values extract_remote_type_params collect_type_params sanitize_flag mount_loaded
    create_and_mount_filesystem mount_steps plan_mount mount_fs extract_volume_mount_options
    set_options set_option set_pair contains merge_copy set_rclone_config_flags config_info
    global_options split push extract_mount_options extract_vfs_options override_options
    resolve_mount_method handle_rclone_daemon wait_for_daemon set_mount_context build_fs_path
    node_unpublish_volume validate_unpublish_volume_request unpublish_body unmount_target
    unmount_volume unmount_point delete_mount_context get_mount_context wait_for_vfs_cache_sync
    sync_loop all_clear clock back_off delete_sections GoMap.delete new_node_server new_driver
    cleanup_config_remotes create_volume create_volume_id create_volume_context
    is_valid_volume_capabilities check_no_block read_parameters read_parameter resolved_path
    replace_with_map trim_space stage_step
finished_phases i = elim (Bool-cases (0 == i)) [
  | inl y ↦ rw y refl
  | inr n ↦ rw n (elim (Bool-cases (1 == i)) [ inl y ↦ rw y refl | inr m ↦ rw m refl ])
]

Reach-Owned_example : Owned loaded (codes "s3")
Reach-Owned_example = Reach-Owned (λ t m p. refl) loaded-Reached (codes "s3") loaded_live

nothing_left_by_workers_example :
    ((try_acquire finished.node.volume_locks (codes "v-/t")).0 ≡ true)
    × (live finished.node.trace (codes "s3") ≡ false)
unfolding get
nothing_left_by_workers_example =
    nothing_left_by_workers (λ t m p. refl) finished-Reached finished_phases
      (λ t. rw finished_contexts refl) (codes "v-/t") (codes "s3")
