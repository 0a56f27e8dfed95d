-- ===== src/Node/Config/Laws.antt =====
-- Loading remotes and removing them again: what stands in rclone's config afterwards.
use csi_driver_rclone.Prelude.{
  ◌≡◌, refl, ap, ◌∙◌, arith, true, false, List, [], ◌∷◌, ◌++◌, Result, ok, if◌then◌else◌, All,
  append_assoc, append-nil,
}
use csi_driver_rclone.Text.{Text}
use csi_driver_rclone.GoMap.{GoMap, Params}
use csi_driver_rclone.Status.{Status}
use csi_driver_rclone.Locks.{has}
use csi_driver_rclone.Params.{PublishVolumeParams, extract_remote_type_params}
use csi_driver_rclone.Node.Calls.{Env, Node, Trace, set_value, update_remote, delete_section}
use csi_driver_rclone.Node.Monad.{continue-ok, tell, perform}
use csi_driver_rclone.Node.Keeps.{Keeps, Keeps-bind, Keeps-tell, keeps_rules, Stable}
use csi_driver_rclone.Node.Effects.{is_config, live}
use csi_driver_rclone.Node.Config.{
  update_typed, load_values, load_remotes, load_rclone_config, delete_sections,
  cleanup_config_remotes,
}

-- The names of the remotes, in the order in which they are loaded.
abbrev pub names : GoMap Params → List Text
names [] = []
names ((name, remote_data) ∷ rest) = name ∷ names rest

-- A property that is stable under the writes to one section is kept by loading that section.
module _ {ℓ} {P : Node → Type ℓ} (env : Env) (params : Params) where
  module _ (name : Text) (setting : (k v : Text) → Stable P (set_value name k v))
      (updating : (p : Params) → Stable P (update_remote name p)) where
    update-Keeps : (key val : Text) → Keeps P (update_typed env params name key val)
    unfolding update_typed
    update-Keeps key val = search (keeps_rules, updating) depth 9

    values-Keeps : (remote_data : Params) → Keeps P (load_values env params name remote_data)
    unfolding load_values
    values-Keeps [] = search keeps_rules
    values-Keeps ((key, val) ∷ remote_data) =
        Keeps-bind _ _ (Keeps-tell _ (setting key val))
          (λ _. Keeps-bind _ _ (update-Keeps key val) (λ _. values-Keeps remote_data))

  pub remotes-Keeps :
      (remotes : GoMap Params) (done : List Text)
      → All
          (λ name.
            ((k v : Text) → Stable P (set_value name k v))
            × ((p : Params) → Stable P (update_remote name p)))
          (names remotes)
      → Keeps P (load_remotes env params remotes done)
  unfolding load_remotes
  remotes-Keeps [] done h = search keeps_rules
  remotes-Keeps ((name, remote_data) ∷ rest) done ((setting, updating), hs) =
      Keeps-bind _ _ (values-Keeps name setting updating remote_data)
        (λ _. remotes-Keeps rest (done ++ name ∷ []) hs)

All-names {ℓ} : {Q : Text → Type ℓ} (ns : List Text) → ((n : Text) → Q n) → All Q ns
All-names [] h = tt
All-names (n ∷ ns) h = (h n, All-names ns h)

-- A property that no write to the config changes is kept by loading and by cleaning up.
module _ {ℓ} {P : Node → Type ℓ} where
  pub delete-Keeps :
      {E : Type 0} (remotes : List Text)
      → ((n : Text) → Stable P (delete_section n))
      → Keeps P (delete_sections {E = E} remotes)
  unfolding delete_sections
  delete-Keeps [] st = search keeps_rules
  delete-Keeps {E} (n ∷ remotes) st =
      Keeps-bind _ _ (Keeps-tell _ (st n)) (λ _. delete-Keeps {E = E} remotes st)

  pub cleanup-Keeps :
      {E : Type 0} (remotes : List Text)
      → ((n : Text) → Stable P (delete_section n))
      → Keeps P (cleanup_config_remotes {E = E} remotes)
  unfolding cleanup_config_remotes
  cleanup-Keeps [] st = search keeps_rules
  cleanup-Keeps (n ∷ remotes) st = delete-Keeps (n ∷ remotes) st

  pub load-Keeps :
      (env : Env) (pvp : PublishVolumeParams)
      → ((c : _) → is_config c ≡ true → Stable P c)
      → Keeps P (load_rclone_config env pvp)
  unfolding load_rclone_config
  load-Keeps env pvp st = search (
    keeps_rules,
    λ (remotes : GoMap Params).
        remotes-Keeps env pvp.params remotes []
          (All-names (names remotes) (λ n. (λ k v. st _ refl, λ p. st _ refl))),
  )

-- After the removal of some sections, those are gone and the others are as before.
pub live-delete_sections :
    (E : Type 0) (remotes : List Text) (s : Node) (n : Text)
    → live (delete_sections {E = E} remotes s).1.trace n
      ≡ (if has remotes n then false else live s.trace n)
unfolding delete_sections has tell
live-delete_sections E [] s n = refl
live-delete_sections E (m ∷ remotes) s n =
    ground
      (arith, live-delete_sections E remotes (record s { trace = delete_section m ∷ s.trace }) n)

-- Where rclone updates every remote, all remotes are loaded, and their names are returned in order.
module _ (env : Env) (params : Params)
    (updates : (t : Trace) (n : Text) (p : Params) → env.on_update_remote t n p ≡ ok tt) where
  update_total :
      (name key val : Text) (s : Node) → (update_typed env params name key val s).0 ≡ ok tt
  unfolding update_typed perform
  update_total name key val s =
      ground (arith, updates s.trace name (extract_remote_type_params params val))

  values_total :
      (name : Text) (remote_data : Params) (s : Node)
      → (load_values env params name remote_data s).0 ≡ ok tt
  unfolding load_values
  values_total name [] s = refl
  values_total name ((key, val) ∷ remote_data) s =
      let s1 = (tell {E = Status} (set_value name key val) s).1 in
      ap (λ (r : Result Status (Unit {0}) × Node). r.0)
        (continue-ok (update_typed env params name key val s1)
          (λ _. load_values env params name remote_data) (update_total name key val s1))
      ∙ values_total name remote_data (update_typed env params name key val s1).1

  pub remotes_total :
      (remotes : GoMap Params) (done : List Text) (s : Node)
      → (load_remotes env params remotes done s).0 ≡ ok (done ++ names remotes)
  unfolding load_remotes
  remotes_total [] done s = rw append-nil
  remotes_total ((name, remote_data) ∷ rest) done s =
      ap (λ (r : Result Status (List Text) × Node). r.0)
        (continue-ok (load_values env params name remote_data s)
          (λ _. load_remotes env params rest (done ++ name ∷ [])) (values_total name remote_data s))
      ∙ (remotes_total rest (done ++ name ∷ []) (load_values env params name remote_data s).1
          ∙ ap ok (append_assoc done (name ∷ []) (names rest)))
