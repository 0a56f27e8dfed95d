-- ===== src/Node/Config.antt =====
-- Parsing the config text, loading its remotes into rclone's config, and removing them.
pub mod Laws
use csi_driver_rclone.Prelude.{
  ℕ, Bool, true, false, ◌&&◌, Option, none, some, List, Result, ok, err, [], ◌∷◌, ◌++◌,
  if◌then◌else◌, ltb, length,
}
use csi_driver_rclone.Text.{Text, codes, text_eq, is_empty}
use csi_driver_rclone.GoMap.{GoMap, Params, put}
use csi_driver_rclone.Status.{Status, error, internal, invalid_argument, with_code}
use csi_driver_rclone.Params.{PublishVolumeParams, extract_remote_type_params}
use csi_driver_rclone.Node.Calls.{Env, IniFile, Node, set_value, update_remote, delete_section}
use csi_driver_rclone.Node.Monad.{M, ◌>>=◌, ◌>>◌, pure, raise, lift, perform, tell, wrapped}

abbrev pub param_backend_type_key : Text
param_backend_type_key = codes "type"

abbrev put_value : Params → Text → Result Text Text → Params
put_value section_data key (ok val) = put section_data key val
put_value section_data key (err e) = section_data

unfoldable pub section_values : IniFile → Text → List Text → Params → Params
section_values gc section [] section_data = section_data
section_values gc section (key ∷ keys) section_data =
    section_values gc section keys (put_value section_data key (gc.get_value section key))

unfoldable pub all_sections : IniFile → List Text → GoMap Params → GoMap Params
unfolding section_values text_eq
all_sections gc [] sections = sections
all_sections gc (section ∷ rest) sections = all_sections gc rest (
    if text_eq section (codes "DEFAULT")
    then sections
    else put sections section (section_values gc section (gc.key_list section) []))

abbrev sections_of : Result Text IniFile → Result Text (GoMap Params)
unfolding all_sections
sections_of (ok gc) = ok (all_sections gc gc.section_list [])
sections_of (err e) = err (codes "failed to parse config data: " ++ e)

unfoldable pub parse_all_config_remotes : Env → Text → Result Text (GoMap Params)
unfolding all_sections
parse_all_config_remotes env config_data = sections_of (env.load_from_reader config_data)

-- What happens after a value is set: behind the key `type` the parameters for that type are set.
unfoldable pub update_typed : Env → Params → Text → Text → Text → M Status Unit
unfolding perform text_eq extract_remote_type_params
update_typed env params remote_name key val =
    if text_eq key param_backend_type_key && ltb 0 (length params)
    then (let remote_params = extract_remote_type_params params val in
        if ltb 0 (length remote_params)
        then wrapped internal (codes "failed to update remote: ") (
            perform (update_remote remote_name remote_params)
              (λ t. env.on_update_remote t remote_name remote_params))
        else pure tt)
    else pure tt

unfoldable pub load_values : Env → Params → Text → Params → M Status Unit
unfolding update_typed tell
load_values env params remote_name [] = pure tt
load_values env params remote_name ((key, val) ∷ remote_data) = do
  tell (set_value remote_name key val)
  update_typed env params remote_name key val
  load_values env params remote_name remote_data

unfoldable pub load_remotes : Env → Params → GoMap Params → List Text → M Status (List Text)
unfolding load_values
load_remotes env params [] remotes = pure remotes
load_remotes env params ((remote_name, remote_data) ∷ rest) remotes = do
  load_values env params remote_name remote_data
  load_remotes env params rest (remotes ++ remote_name ∷ [])

unfoldable pub load_rclone_config : Env → PublishVolumeParams → M Status (List Text)
unfolding load_remotes parse_all_config_remotes
load_rclone_config env pvp = if is_empty pvp.config_data then pure [] else (do
  all_remotes ← lift (
      with_code invalid_argument (codes "failed to parse configData: ")
        (parse_all_config_remotes env pvp.config_data))
  load_remotes env pvp.params all_remotes [])

unfoldable pub delete_sections : {E : Type 0} → List Text → M E Unit
unfolding tell
delete_sections [] = pure tt
delete_sections (remote_name ∷ remotes) = do
  tell (delete_section remote_name)
  delete_sections remotes

unfoldable pub cleanup_config_remotes : {E : Type 0} → List Text → M E Unit
unfolding delete_sections
cleanup_config_remotes [] = pure tt
cleanup_config_remotes (remote_name ∷ remotes) = delete_sections (remote_name ∷ remotes)
