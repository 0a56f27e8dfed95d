-- ===== src/Controller.antt =====
-- The controller service (pkg/rclone/controllerserver.go) and `replaceWithMap` (pkg/rclone/rclone.go).
pub mod Laws
pub mod Logs
use csi_driver_rclone.Prelude.{
  Bool, true, false, Option, none, some, List, [], ◌∷◌, ◌++◌, Result, ok, err, ◌>>=◌, ◌>>◌, fail_if,
  if◌then◌else◌, not,
}
use csi_driver_rclone.Text.{Text, codes, text_eq, is_empty, to_lower, trim_space, replace_all}
use csi_driver_rclone.GoMap.{GoMap, Params, put, put_all}
use csi_driver_rclone.Status.{Status, Reply, error, invalid_argument, unimplemented, with_code}
use csi_driver_rclone.Csi.{MountVolume, VolumeCapability, block, mount, unset}
use csi_driver_rclone.Params.{param_remote, param_remote_path, param_config_data}

abbrev pub pvc_name_key : Text
pvc_name_key = codes "csi.storage.k8s.io/pvc/name"

abbrev pub pvc_namespace_key : Text
pvc_namespace_key = codes "csi.storage.k8s.io/pvc/namespace"

abbrev pub pv_name_key : Text
pv_name_key = codes "csi.storage.k8s.io/pv/name"

abbrev pub pvc_name_metadata : Text
pvc_name_metadata = codes "${pvc.metadata.name}"

abbrev pub pvc_namespace_metadata : Text
pvc_namespace_metadata = codes "${pvc.metadata.namespace}"

abbrev pub pv_name_metadata : Text
pv_name_metadata = codes "${pv.metadata.name}"

abbrev pub separator : Text
separator = codes "#"

pub record CreateVolumeRequest : Type 0 where
  pub name : Text
  pub volume_capabilities : List VolumeCapability
  pub parameters : Params

pub record Volume : Type 0 where
  pub volume_id : Text
  pub volume_context : Params

unfoldable pub check_no_block : List VolumeCapability → Result Text (Unit {0})
check_no_block [] = ok tt
check_no_block (block ∷ vol_caps) = err (codes "block volume capability not supported")
check_no_block (mount m ∷ vol_caps) = check_no_block vol_caps
check_no_block (unset ∷ vol_caps) = check_no_block vol_caps

unfoldable pub is_valid_volume_capabilities : List VolumeCapability → Result Text (Unit {0})
is_valid_volume_capabilities [] = err (codes "volume capabilities missing in request")
is_valid_volume_capabilities (c ∷ vol_caps) = check_no_block (c ∷ vol_caps)

-- The variables of the loop over the parameters.
pub record Read : Type 0 where
  pub remote : Text
  pub remote_path : Text
  pub replace_map : Params

abbrev pub read_init : Read
read_init = record { remote = []; remote_path = []; replace_map = [] }

-- One parameter: `switch strings.ToLower(k)`.
unfoldable pub read_parameter : Read → Text → Text → Read
read_parameter r k v =
    let key = to_lower (trim_space k) in
    let val = trim_space v in
    if text_eq key (to_lower param_remote)
    then record r { remote = val }
    else if text_eq key (to_lower param_remote_path)
    then record r { remote_path = val }
    else if text_eq key (to_lower param_config_data)
    then r
    else if text_eq key pvc_namespace_key
    then record r { replace_map = put r.replace_map pvc_namespace_metadata val }
    else if text_eq key pvc_name_key
    then record r { replace_map = put r.replace_map pvc_name_metadata val }
    else if text_eq key pv_name_key
    then record r { replace_map = put r.replace_map pv_name_metadata val }
    else r

unfoldable pub read_parameters : Read → Params → Read
read_parameters r [] = r
read_parameters r ((k, v) ∷ parameters) = read_parameters (read_parameter r k v) parameters

-- The map is read in the order of the list.
unfoldable pub replace_with_map : Text → Params → Text
replace_with_map str [] = str
replace_with_map str ((k, v) ∷ m) =
    replace_with_map (if not (is_empty k) then replace_all str k v else str) m

-- `order` is the order in which the loop of `replaceWithMap` visits the map it is given.
unfoldable pub resolved_path : (Params → Params) → Read → Text
resolved_path order r =
    if not (is_empty r.remote_path)
    then replace_with_map r.remote_path (order r.replace_map)
    else r.remote_path

unfoldable pub create_volume_id : Text → Text → Text
create_volume_id remote name = if not (is_empty remote) then remote ++ (separator ++ name) else name

unfoldable pub create_volume_context : Params → Text → Params
create_volume_context parameters remote_path =
    let volume_context = put_all [] parameters in
    if not (is_empty remote_path)
    then put volume_context param_remote_path remote_path
    else volume_context

unfoldable pub create_volume : (Params → Params) → CreateVolumeRequest → Reply Volume
create_volume order req = do
  fail_if (is_empty req.name) (error invalid_argument (codes "CreateVolume name must be provided"))
  with_code invalid_argument [] (is_valid_volume_capabilities req.volume_capabilities)
  let r = read_parameters read_init req.parameters
  ok (record {
    volume_id = create_volume_id r.remote req.name;
    volume_context = create_volume_context req.parameters (resolved_path order r);
  })

unfoldable pub delete_volume : Text → Reply (Unit {0})
delete_volume volume_id =
    if is_empty volume_id then err (error invalid_argument (codes "volume id is empty")) else ok tt

-- The capabilities that are confirmed.
unfoldable pub validate_volume_capabilities :
    Text → List VolumeCapability → Reply (List VolumeCapability)
validate_volume_capabilities volume_id vol_caps = do
  fail_if (is_empty volume_id) (error invalid_argument (codes "Volume ID missing in request"))
  with_code invalid_argument [] (is_valid_volume_capabilities vol_caps)
  ok vol_caps

-- The methods that the controller does not implement.
pub data UnimplementedMethod : Type 0 where
  controller_publish_volume controller_unpublish_volume controller_get_volume : UnimplementedMethod
  list_volumes get_capacity controller_expand_volume controller_modify_volume : UnimplementedMethod

unfoldable pub unimplemented_reply : UnimplementedMethod → Reply (Unit {0})
unimplemented_reply m = err (error unimplemented [])
