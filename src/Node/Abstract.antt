-- ===== src/Node/Abstract.antt =====
-- What the node service promises, for requests handled one after another: the set of the targets that
-- have a volume, which the answers of the requests determine.
use mathlib.Core.Path.{fun_ext}
use csi_driver_rclone.Prelude.{
  ◌≡◌, refl, ap, ◌∙◌, arith, Bool, true, false, Option, none, some, List, [], ◌∷◌, Result, ok, err,
  if◌then◌else◌,
}
use csi_driver_rclone.Text.{Text, text_eq, is_empty}
use csi_driver_rclone.GoMap.{get}
use csi_driver_rclone.GoMap.Laws.{get-put, get-delete}
use csi_driver_rclone.Status.{Status}
use csi_driver_rclone.Csi.{NodePublishVolumeRequest, NodeUnpublishVolumeRequest}
use csi_driver_rclone.Node.Calls.{Env, Node, MountContext}
use csi_driver_rclone.Node.Monad.{M}
use csi_driver_rclone.Node.Outcome.{Outcome}
use csi_driver_rclone.Node.Volume.{node_publish_volume, node_unpublish_volume}
use csi_driver_rclone.Node.Volume.Published.Laws.{IsPublished, IsRefused, node_publish_volume_lem}
use csi_driver_rclone.Node.Volume.Unpublished.{IsUnpublished, IsStill, node_unpublish_volume_lem}

pub data Request : Type 0 where
  publish : (req : NodePublishVolumeRequest) → Request
  unpublish : (req : NodeUnpublishVolumeRequest) → Request

abbrev pub handle : Env → Request → M Status Unit
handle env (publish req) = node_publish_volume env req
handle env (unpublish req) = node_unpublish_volume env req

abbrev pub succeeded : Result Status (Unit {0}) → Bool
succeeded (ok a) = true
succeeded (err e) = false

-- The requests in order, with whether each succeeded.
abbrev pub handle_all : Env → List Request → Node → List Bool × Node
handle_all env [] s = ([], s)
handle_all env (r ∷ requests) s =
    let (answer, s') = handle env r s in
    let (answers, s'') = handle_all env requests s' in (succeeded answer ∷ answers, s'')

abbrev is_some : Option MountContext → Bool
is_some none = false
is_some (some mc) = true

-- Does the target have a volume?
abbrev pub has_volume : Node → Text → Bool
has_volume s target = is_some (get s.mount_context target)

abbrev pub update : (Text → Bool) → Text → Bool → Text → Bool
update set target b t = if text_eq target t then b else set t

-- A request that succeeds adds its target or takes it away, and one that fails does nothing.
abbrev pub replay_one : Request → Bool → (Text → Bool) → Text → Bool
replay_one (publish req) true set = update set req.target_path true
replay_one (unpublish req) true set = update set req.target_path false
replay_one r false set = set

pub replay : List Request → List Bool → (Text → Bool) → Text → Bool
replay (r ∷ requests) (b ∷ answers) set = replay requests answers (replay_one r b set)
replay _ _ set = set

module _ (env : Env) (texts : (e : Status) → is_empty (env.status_text e) ≡ false) where
  publish-replay :
      (req : NodePublishVolumeRequest) (s : Node) (r : Result Status (Unit {0}) × Node)
      → Outcome (λ _. IsPublished env req s) (IsRefused req s) r
      → (t : Text) → has_volume r.1 t ≡ replay_one (publish req) (succeeded r.0) (has_volume s) t
  publish-replay req s (ok a, s') h t = rw (h.contexts, get-put) (ground arith)
  publish-replay req s (err e, s') h t = rw h.contexts refl

  unpublish-replay :
      (req : NodeUnpublishVolumeRequest) (s : Node) (r : Result Status (Unit {0}) × Node)
      → Outcome (λ _. IsUnpublished req.target_path s) (IsStill req.target_path s) r
      → (t : Text) → has_volume r.1 t ≡ replay_one (unpublish req) (succeeded r.0) (has_volume s) t
  unpublish-replay req s (ok a, s') h t = rw (h.contexts, get-delete) (ground arith)
  unpublish-replay req s (err e, s') h t = rw h.contexts refl

  handle-replay :
      (r : Request) (s : Node) (t : Text)
      → has_volume (handle env r s).1 t
        ≡ replay_one r (succeeded (handle env r s).0) (has_volume s) t
  handle-replay (publish req) s t =
      publish-replay req s (node_publish_volume env req s) (node_publish_volume_lem env req s texts)
        t
  handle-replay (unpublish req) s t =
      unpublish-replay req s (node_unpublish_volume env req s) (node_unpublish_volume_lem env req s)
        t

  -- For requests handled one after another, whatever they and the environment are, the targets that
  -- have a volume after them are those that the answers tell: a request that succeeds adds its target
  -- or takes it away, and one that fails changes nothing. Provided that every error has a text that is
  -- not empty, as gRPC's have.
  pub handle_all_refines :
      (requests : List Request) (s : Node) (t : Text)
      → has_volume (handle_all env requests s).1 t
        ≡ replay requests (handle_all env requests s).0 (has_volume s) t
  unfolding replay
  handle_all_refines [] s t = refl
  handle_all_refines (r ∷ requests) s t =
      handle_all_refines requests (handle env r s).1 t
      ∙ ap (λ set. replay requests (handle_all env requests (handle env r s).1).0 set t)
          (fun_ext (handle-replay r s))
