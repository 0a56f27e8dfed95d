-- ===== src/Node/Volume/Published/Laws.antt =====
-- What a publish request does, on each way out.
use csi_driver_rclone.Prelude.{
  ◌≡◌, ◌⊎◌, inl, inr, true, false, List, ◌∷◌, Result, ok, err, false≢true, sym, ◌∙◌, refl, ap,
}
use csi_driver_rclone.Text.{Text, is_empty}
use csi_driver_rclone.GoMap.{Params, put}
use csi_driver_rclone.Status.{Status}
use csi_driver_rclone.Csi.{NodePublishVolumeRequest}
use csi_driver_rclone.Node.Calls.{Env, Node, Trace, MountContext}
use csi_driver_rclone.Node.Outcome.{Outcome, Outcome-ok, Outcome-weaken}
use csi_driver_rclone.Node.Effects.{live, mounted}
use csi_driver_rclone.Node.Volume.{node_publish_volume}
use csi_driver_rclone.Node.Volume.Published.{IsContext}
use csi_driver_rclone.Node.Volume.Published.Load.{load-Loaded, load-Loaded_any}
use csi_driver_rclone.Node.Volume.Published.Mounting.{Tried}
use csi_driver_rclone.Node.Volume.Published.Request.{fs_path_of, publish_lem}

-- One mount more was asked for, of the file system that the request names, at its target; and the
-- context of that mount is all that is new among the contexts.
pub record IsPublished (env : Env) (req : NodePublishVolumeRequest) (s s' : Node) : Type 0 where
  pub remotes : List Text
  pub mc : MountContext
  pub context : IsContext env req.target_path remotes mc
  pub contexts : s'.mount_context ≡ put s.mount_context req.target_path mc
  pub mounts : mounted s'.trace ≡ (req.target_path, fs_path_of req) ∷ mounted s.trace

-- No context has changed, and no mount was asked for but that one.
pub record IsRefused (req : NodePublishVolumeRequest) (s s' : Node) : Type 0 where
  pub contexts : s'.mount_context ≡ s.mount_context
  pub mounts :
      (mounted s'.trace ≡ mounted s.trace)
      ⊎ (mounted s'.trace ≡ (req.target_path, fs_path_of req) ∷ mounted s.trace)

Tried-IsRefused :
    (env : Env) (req : NodePublishVolumeRequest) (s s' : Node) (W : Text → Type 0)
    → Tried env req.target_path (fs_path_of req) s.mount_context (mounted s.trace) W s'
    → IsRefused req s s'
Tried-IsRefused env req s s' W (inl h) = record { contexts = h.same; mounts = inl h.mounts }
Tried-IsRefused env req s s' W (inr h) = record { contexts = h.same; mounts = inr h.mounts }

-- A publish request that succeeds has asked for exactly one mount, at its target path, of the file
-- system that its parameters name, and records that mount, by a number that rclone answered, as the
-- context of the target; other contexts stay. One that fails leaves all contexts as they are, and has
-- asked for no mount but that one. Provided that every error has a text that is not empty, as gRPC's
-- have.
pub node_publish_volume_lem :
    (env : Env) (req : NodePublishVolumeRequest) (s : Node)
    → ((e : Status) → is_empty (env.status_text e) ≡ false)
    → Outcome (λ _. IsPublished env req s) (IsRefused req s) (node_publish_volume env req s)
node_publish_volume_lem env req s texts =
    let asked = mounted s.trace in
    Outcome-weaken _ _ (λ _. IsPublished env req s)
      (Tried env req.target_path (fs_path_of req) s.mount_context asked (λ n. Unit)) _
      (publish_lem env req s.mount_context asked (λ n. Unit) (IsPublished env req s)
        (load-Loaded_any s.mount_context asked env)
        (λ remotes mc t c h. record {
          remotes = remotes;
          mc = mc;
          context = c;
          contexts = ap (λ m. put m req.target_path mc) h.same;
          mounts = h.mounts;
        })
        (λ e t y h. absurd (false≢true (sym (texts e) ∙ y)))
        (λ vl t h. record {
          remotes = h.remotes;
          mc = h.mc;
          context = h.context;
          contexts = h.contexts;
          mounts = h.mounts;
        })
        s (record { same = refl; mounts = refl; standing = λ n l. tt }))
      (λ a t h. h) (λ t h. Tried-IsRefused env req s t (λ n. Unit) h)

pub node_publish_volume-ok :
    (env : Env) (req : NodePublishVolumeRequest) (s : Node)
    → ((e : Status) → is_empty (env.status_text e) ≡ false)
    → (node_publish_volume env req s).0 ≡ ok tt
    → IsPublished env req s (node_publish_volume env req s).1
node_publish_volume-ok env req s texts done =
    Outcome-ok (IsPublished env req s) (IsRefused req s) (node_publish_volume env req s) done
      (node_publish_volume_lem env req s texts)

-- A publish request that fails leaves no section in rclone's config that did not stand before,
-- provided that rclone updates every remote.
pub node_publish_volume-live :
    (env : Env) (req : NodePublishVolumeRequest) (s : Node) {e : Status} (n : Text)
    → ((t : Trace) (m : Text) (p : Params) → env.on_update_remote t m p ≡ ok tt)
    → (node_publish_volume env req s).0 ≡ err e
    → live (node_publish_volume env req s).1.trace n ≡ true
    → live s.trace n ≡ true
node_publish_volume-live env req s n updates failed l =
    go (node_publish_volume env req s) failed
      (publish_lem env req s.mount_context (mounted s.trace) Old (λ t. Unit)
        (load-Loaded s.mount_context (mounted s.trace) Old env updates) (λ remotes mc t c h. tt)
        (λ x t y h. tt) (λ vl t h. tt) s
        (record { same = refl; mounts = refl; standing = λ m k. k }))
      l
  where
    Old : Text → Type 0
    Old m = live s.trace m ≡ true

    go :
        (r : Result Status (Unit {0}) × Node) {x : Status}
        → r.0 ≡ err x
        → Outcome
            (λ _ t. Unit)
            (Tried env req.target_path (fs_path_of req) s.mount_context (mounted s.trace) Old)
            r
        → live r.1.trace n ≡ true
        → live s.trace n ≡ true
    go (ok a, t) e h k = absurd (cc)
    go (err y, t) e (inl h) k = h.standing n k
    go (err y, t) e (inr h) k = h.standing n k
