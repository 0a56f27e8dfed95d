-- ===== src/Node/Calls.antt =====
-- What the node service asks of the code around it, and the state that it keeps.
--
-- Every call of rclone, the operating system and the mounter is written to a trace, and `Env` answers
-- it from the trace before it: an environment is free to answer each call in any way that may depend
-- on all calls made so far.
use csi_driver_rclone.Prelude.{ℕ, ℤ, Bool, Option, List, Result}
use csi_driver_rclone.Text.{Text}
use csi_driver_rclone.GoMap.{GoMap, Params}
use csi_driver_rclone.Locks.{VolumeLocks}
use csi_driver_rclone.Status.{Status}

pub data Call : Type 0 where
  -- the mounter and the operating system
  is_likely_not_mount_point mkdir_all chmod read_dir unmount : (path : Text) → Call
  cleanup_mount_point : (path : Text) → Call
  cleanup_mount_with_force : (path : Text) → (seconds : ℕ) → Call
  -- rclone's config, which is one for the whole process
  set_value : (section key val : Text) → Call
  update_remote : (section : Text) → (params : Params) → Call
  delete_section : (section : Text) → Call
  set_cache_dir set_temp_dir : (dir : Text) → Call
  set_debug_level reload pass_config_key : Call
  -- one mount
  new_fs : (fs_path : Text) → Call
  mount : (method target fs_path : Text) → Call
  register unregister signal_daemon : Call
  wait_mount_ready : (target : Text) → Call
  cancel : (context : ℕ) → Call
  vfs_stats unmount_mount_point : (mount_id : ℕ) → Call
  sleep : (seconds : ℕ) → Call

-- Newest call first.
abbrev pub Trace : Type 0
Trace = List Call

-- An error of the file system, with the answer of `os.IsNotExist`.
pub record PathError : Type 0 where
  pub not_exist : Bool
  pub text : Text

-- `mountlib.Options`: the fields that the driver reads. A duration is in nanoseconds.
pub record MountOptions : Type 0 where
  pub device_name : Text
  pub volume_name : Text
  pub daemon : Bool
  pub daemon_wait : ℤ

-- `vfscommon.Options`: the field that the driver reads.
pub record VfsOptions : Type 0 where
  pub read_only : Bool

-- `fs.ConfigInfo` of one mount: what the driver sets in it.
pub record ConfigInfo : Type 0 where
  pub disable_features : Option (List Text)
  pub options : Params

-- What `MountPoint.Mount` answers: the mount's number, and whether a daemon process makes the mount. It
-- is left to the daemon before the fields `VFS` and `UnmountFn` are set.
pub record Mounted : Type 0 where
  pub id : ℕ
  pub daemon : Bool

-- `mountlib.MountPoint`; `vfs` says whether the field `VFS` is set.
pub record MountPoint : Type 0 where
  pub id : ℕ
  pub target : Text
  pub mount_opt : MountOptions
  pub vfs_opt : VfsOptions
  pub vfs : Bool

pub record MountContext : Type 0 where
  pub mount_point : Option MountPoint
  pub remote_name : Text
  pub remotes : List Text
  -- the cancel function, by the number of the context that it cancels
  pub cancel_func : Option ℕ

-- `stats["diskCache"]`, with the two entries as they are or 0 where they are no `int`.
pub record DiskCache : Type 0 where
  pub uploads_in_progress : ℤ
  pub uploads_queued : ℤ

-- A parsed config file, by what `goconfig` answers of it.
pub record IniFile : Type 0 where
  pub section_list : List Text
  pub key_list : Text → List Text
  pub get_value : Text → Text → Result Text Text

pub record Env : Type 0 where
  -- answers that depend on what happened before
  pub on_is_likely_not_mount_point : Trace → Text → Result PathError Bool
  pub on_mkdir_all : Trace → Text → Result Text (Unit {0})
  pub on_chmod : Trace → Text → Result Text (Unit {0})
  pub on_read_dir : Trace → Text → Result Text (Unit {0})
  pub on_unmount : Trace → Text → Result Text (Unit {0})
  pub on_cleanup : Trace → Text → Result Text (Unit {0})
  pub on_update_remote : Trace → Text → Params → Result Text (Unit {0})
  pub on_set_cache_dir : Trace → Text → Result Text (Unit {0})
  pub on_set_temp_dir : Trace → Text → Result Text (Unit {0})
  pub on_reload : Trace → ConfigInfo → Result Text (Unit {0})
  pub on_new_fs : Trace → ConfigInfo → Text → Result Text (Unit {0})
  pub on_mount : Trace → Text → Result Text Mounted
  pub on_signal_daemon : Trace → Result Text (Unit {0})
  pub on_wait_mount_ready : Trace → Text → ℤ → Result Text (Unit {0})
  pub on_unmount_mount_point : Trace → ℕ → Result Text (Unit {0})
  pub on_vfs_stats : Trace → ℕ → Option DiskCache
  -- the clock in nanoseconds, after the calls so far
  pub now : Trace → ℕ
  -- answers that are the same at any time
  pub status_text : Status → Text
  pub load_from_reader : Text → Result Text IniFile
  pub is_global_option : Text → Bool
  pub accepts_config : Params → Result Text (Unit {0})
  pub mount_option_names : List Text
  pub mount_defaults : Text → Option Text
  pub load_mount_options : Result Text MountOptions
  pub set_mount_options : Params → MountOptions → Result Text MountOptions
  pub vfs_option_names : List Text
  pub vfs_defaults : Text → Option Text
  pub load_vfs_options : Result Text VfsOptions
  pub set_vfs_options : Params → VfsOptions → Result Text VfsOptions
  pub on_resolve_mount_method : Text → Option Text
  pub force_unmounter : Bool

-- The state of a `NodeServer`, with the driver's locks and the trace. A nil map of contexts reads
-- like an empty one, and the first write makes it.
pub record Node : Type 0 where
  pub mount_context : GoMap MountContext
  pub volume_locks : VolumeLocks
  pub trace : Trace
