-- ===== src/Node/Volume/Published/Body.antt =====
-- A publish request from the loading of its remotes on.
use csi_driver_rclone.Prelude.{◌≡◌, refl, true, inl, inr, List, ◌∷◌, Result, ok, err, Bool-cases}
use csi_driver_rclone.Text.{Text, is_empty}
use csi_driver_rclone.GoMap.{GoMap, put}
use csi_driver_rclone.Status.{Status}
use csi_driver_rclone.Params.{PublishVolumeParams, generate_config_data, build_fs_path}
use csi_driver_rclone.Params.Ini.{generate_config_data-remote}
use csi_driver_rclone.Node.Calls.{Env, Node, MountContext}
use csi_driver_rclone.Node.Monad.{M, continue}
use csi_driver_rclone.Node.Outcome.{Outcome, Outcome-bind, Outcome-weaken, Outcome-on_failure}
use csi_driver_rclone.Node.Config.{load_rclone_config}
use csi_driver_rclone.Node.Mount.{create_and_mount_filesystem}
use csi_driver_rclone.Node.Volume.{set_mount_context, mount_loaded, mount_volume, when_prepared}
use csi_driver_rclone.Node.Volume.Published.{At, OrIn, IsContext}
use csi_driver_rclone.Node.Volume.Published.Load.{Loaded}
use csi_driver_rclone.Node.Volume.Published.Mounting.{Tried, Made, create_lem, Tried-cleanup}

module _ (env : Env) (target fs_path : Text) (contexts : GoMap MountContext)
    (asked : List (Text × Text)) where
  -- What the request leads to where it succeeds: by a context that is put, or, without one, by an
  -- error with no text.
  module _ (W : Text → Type 0) (Final : Node → Type 0)
      (loads : (pvp : PublishVolumeParams) (s : Node)
        → At contexts asked W s
        → Loaded contexts asked W (load_rclone_config env pvp s))
      (putting : (remotes : List Text) (mc : MountContext) (s : Node)
        → IsContext env target remotes mc
        → At contexts ((target, fs_path) ∷ asked) (OrIn W remotes) s
        → Final (record s { mount_context = put s.mount_context target mc }))
      (silent : (e : Status) (s : Node)
        → is_empty (env.status_text e) ≡ true
        → At contexts asked W s
        → Final s) where
    loaded_lem :
        (pvp : PublishVolumeParams) (options remotes : List Text) (s : Node)
        → build_fs_path pvp.remote_name pvp.remote_path ≡ fs_path
        → At contexts asked (OrIn W remotes) s
        → Outcome
            (λ _. Final)
            (Tried env target fs_path contexts asked W)
            (mount_loaded env pvp target options remotes s)
    unfolding mount_loaded set_mount_context
    loaded_lem pvp options remotes s e h =
        Outcome-bind (λ _. Final) (Tried env target fs_path contexts asked W)
          (λ x. Made env target fs_path contexts asked (OrIn W remotes) x.0) _ _
          (Outcome-on_failure (λ x. Made env target fs_path contexts asked (OrIn W remotes) x.0)
            (Tried env target fs_path contexts asked W)
            (Tried env target fs_path contexts asked (OrIn W remotes))
            (create_and_mount_filesystem env (build_fs_path pvp.remote_name pvp.remote_path) target
              options pvp.params s)
            _
            (rw e (
              create_lem env target fs_path contexts asked (OrIn W remotes) options pvp.params s h))
            (Tried-cleanup env target fs_path contexts asked W remotes))
          (λ x t ((after, answer), at).
            putting remotes _ t
              (record {
                point = x.0;
                has_point = refl;
                at_target = at;
                answered = answer;
                has_remotes = refl;
              })
              after)

    pub volume_lem :
        (pvp : PublishVolumeParams) (options : List Text) (s : Node)
        → build_fs_path pvp.remote_name pvp.remote_path ≡ fs_path
        → At contexts asked W s
        → Outcome
            (λ _. Final)
            (Tried env target fs_path contexts asked W)
            (mount_volume env pvp target options s)
    unfolding mount_volume
    volume_lem pvp options s e h = go (generate_config_data pvp) refl
      where
        go :
            (r : Result Status PublishVolumeParams)
            → generate_config_data pvp ≡ r
            → Outcome
                (λ _. Final)
                (Tried env target fs_path contexts asked W)
                (continue
                  (r, s)
                  (λ filled t.
                    continue
                      (load_rclone_config env filled t)
                      (λ remotes. mount_loaded env filled target options remotes)))
        go (err x) f = inl h
        go (ok filled) f =
            Outcome-bind (λ _. Final) (Tried env target fs_path contexts asked W)
              (λ remotes. At contexts asked (OrIn W remotes)) (load_rclone_config env filled s) _
              (Outcome-weaken _ _ (λ remotes. At contexts asked (OrIn W remotes))
                (At contexts asked W) _ (loads filled s h) (λ remotes t g. g) (λ t g. inl g))
              (λ remotes t g.
                loaded_lem filled options remotes t
                  (let (name, path) = generate_config_data-remote pvp f in rw (name, path) e) g)

    pub prepared_lem :
        (r : Result Status (Unit {0}) × Node) (next : M Status (Unit {0}))
        → At contexts asked W r.1
        → ((s : Node)
            → At contexts asked W s
            → Outcome (λ _. Final) (Tried env target fs_path contexts asked W) (next s))
        → Outcome
            (λ _. Final)
            (Tried env target fs_path contexts asked W)
            (when_prepared env r next)
    prepared_lem (ok a, s) next h k = k s h
    prepared_lem (err e, s) next h k = elim (Bool-cases (is_empty (env.status_text e))) [
      | inl y ↦ rw y (silent e s y h)
      | inr d ↦ rw d (inl h)
    ]
