-- ===== src/Witnesses/Params.antt =====
-- The parameter functions on small inputs.
use csi_driver_rclone.Prelude.{◌≡◌, refl, arith, [], ◌∷◌, ◌++◌, ok, inl, inr}
use csi_driver_rclone.Text.{codes, text_eq}
use csi_driver_rclone.Endpoint.{parse_endpoint, parse_endpoint-scheme, unix}
use csi_driver_rclone.GoMap.{Params}
use csi_driver_rclone.Text.{
  to_lower_rune, to_lower, has_prefix, drop, trim_prefix, replace_all, replace_from, split,
}
use csi_driver_rclone.GoMap.{get, value, or_else}
use csi_driver_rclone.Flags.{normalize_rclone_flag, sanitize_flag}
use csi_driver_rclone.Flags.Laws.{sanitize-flagged}
use csi_driver_rclone.Params.{
  PublishVolumeParams, reserved_params, extract_publish_params, merge_volume_parameters,
  generate_reclone_config_from_params, extract_volume_mount_options,
}
use csi_driver_rclone.Params.Merge.{get-merge_volume_parameters}
use csi_driver_rclone.Params.Extract.{extract_complete}
use csi_driver_rclone.Params.Options.{put_options, extract_volume_mount_options_lem}
use csi_driver_rclone.Params.Ini.{split-generate}
use csi_driver_rclone.Witnesses.Sample.{sample_secrets, sample_context}

sanitize-flagged_example :
    sanitize_flag (codes "S3") (codes "s3" ++ b'-' ∷ codes "Access-Key")
    ≡ normalize_rclone_flag (codes "Access-Key")
unfolding to_lower to_lower_rune has_prefix
sanitize-flagged_example =
    sanitize-flagged (codes "S3") (codes "s3") (codes "Access-Key") b'-' (λ e. cc) (omega arith)
      refl (inl refl) refl

get-merge_volume_parameters_example :
    get (merge_volume_parameters sample_secrets sample_context) (codes "remote")
    ≡ or_else (get sample_context (codes "remote")) (get sample_secrets (codes "remote"))
unfolding get text_eq
get-merge_volume_parameters_example =
    get-merge_volume_parameters sample_secrets sample_context (codes "remote") (refl, (refl, tt))
      (refl, (refl, tt))

abbrev sample_params : Params
sample_params =
    (codes "configData", codes "[s3]")
    ∷ (codes "remote", codes "s3")
    ∷ (codes "Vfs-Cache", codes "full")
    ∷ []

abbrev sample_extracted : PublishVolumeParams
sample_extracted = record {
  remote_name = codes "s3";
  remote_path = [];
  config_data = codes "[s3]";
  remote_type = [];
  params = (codes "vfs_cache", codes "full") ∷ [];
}

extract_complete_example :
    (pvp : PublishVolumeParams) × (extract_publish_params sample_params ≡ ok pvp)
unfolding value get text_eq reserved_params normalize_rclone_flag trim_prefix has_prefix drop
    replace_all replace_from to_lower to_lower_rune
extract_complete_example =
    extract_complete sample_params (λ e. cc) (inl (λ e. cc)) (inl refl, (inl refl, (inr refl, tt)))

extract_volume_mount_options_example :
    extract_volume_mount_options (codes "uid=1=2" ∷ codes "debug" ∷ [])
    ≡ ok (put_options (codes "uid=1=2" ∷ codes "debug" ∷ []) [])
extract_volume_mount_options_example =
    extract_volume_mount_options_lem (codes "uid=1=2" ∷ codes "debug" ∷ [])

split-generate_example :
    split
      (generate_reclone_config_from_params
        ((codes "region", codes "eu") ∷ [])
        (codes "s3")
        (codes "r"))
      b'\n'
    ≡ codes "[r]" ∷ codes "type = s3" ∷ codes "region = eu" ∷ [] ∷ []
split-generate_example =
    split-generate ((codes "region", codes "eu") ∷ []) (codes "s3") (codes "r") (omega arith)
      (omega arith) ((omega arith, omega arith), tt)

parse_endpoint-scheme_example :
    parse_endpoint (codes "unix:///csi/csi.sock") ≡ ok (codes "unix", codes "/csi/csi.sock")
parse_endpoint-scheme_example = parse_endpoint-scheme unix b'/' (codes "csi/csi.sock")
