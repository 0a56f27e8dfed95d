-- ===== src/Witnesses/Services.antt =====
-- The controller, the identity service, the log handler and the remote control server on small inputs.
use csi_driver_rclone.Prelude.{◌≡◌, ◌≢◌, refl, inr, true, false, [], ◌∷◌, ok, pos, none, arith}
use csi_driver_rclone.Node.Stats.{Statfs, Health, byte_usage, byte_usage_exact, bytes}
use csi_driver_rclone.Metrics.{extract_volume_id, extract_pod_id, extract-kubelet_path}
use csi_driver_rclone.Text.{Text, codes, text_eq, to_lower, to_lower_rune, trim_space}
use csi_driver_rclone.GoMap.{get}
use csi_driver_rclone.Controller.{CreateVolumeRequest, Volume, create_volume}
use csi_driver_rclone.Controller.Laws.{Supported, IsRemote, create_volume_lem}
use csi_driver_rclone.Rc.{Options, RcOptions}
use csi_driver_rclone.Witnesses.Sample.{sample_context, sample_capability}

abbrev sample_create : CreateVolumeRequest
sample_create = record {
  name = codes "pvc-1";
  volume_capabilities = sample_capability ∷ [];
  parameters = sample_context;
}

supported : Supported (sample_capability ∷ [])
supported = (λ e. cc, (λ e. cc, tt))

-- The first parameter names the remote.
sample-IsRemote : IsRemote sample_context (codes "s3")
unfolding to_lower to_lower_rune trim_space
sample-IsRemote = inr (
  [],
  (codes "Vfs-Cache", codes "full") ∷ [],
  codes "remote",
  codes "s3",
  refl,
  refl,
  (λ e. cc, tt),
  refl,
)

create_volume_example :
    (volume : Volume) × (create_volume (λ m. m) sample_create ≡ ok volume)
    × (volume.volume_id ≡ codes "s3#pvc-1")
    × ((k : Text) → k ≢ codes "remotePath" → get volume.volume_context k ≡ get sample_context k)
unfolding get text_eq
create_volume_example =
    create_volume_lem (λ m. m) sample_create (codes "s3") (λ e. cc) supported (refl, (refl, tt))
      sample-IsRemote

abbrev pub rc_defaults : RcOptions
rc_defaults = record {
  enabled = false;
  no_auth = false;
  listen_addrs = [];
  basic_user = [];
  basic_pass = [];
}

abbrev pub guarded_options : Options
guarded_options = record {
  enabled = true;
  address = codes ":5573";
  no_auth = false;
  username = codes "u";
  password = codes "p";
}

abbrev sample_statfs : Statfs
sample_statfs = record {
  bsize = 4096;
  blocks = 1000;
  bavail = 500;
  bfree = 600;
  files = 0;
  ffree = 0;
}

byte_usage_exact_example :
    byte_usage sample_statfs
    ≡ record { available = pos 2048000; total = pos 4096000; used = pos 1638400; unit = bytes }
byte_usage_exact_example = byte_usage_exact sample_statfs (omega arith) (omega arith) (omega arith)

abbrev pub sample_health : Health
sample_health = record { read_dir = λ p. ok tt; vfs_errors = λ id. none; show = λ n. [] }

extract-kubelet_path_example :
    (extract_volume_id (codes "/var/lib/kubelet/pods/u1/volumes/kubernetes.io~csi/pv/mount")
      ≡ codes "pv")
    × (extract_pod_id (codes "/var/lib/kubelet/pods/u1/volumes/kubernetes.io~csi/pv/mount")
        ≡ codes "u1")
extract-kubelet_path_example =
    extract-kubelet_path (codes "u1") (codes "pv") (omega arith) (omega arith) (λ e. cc)
