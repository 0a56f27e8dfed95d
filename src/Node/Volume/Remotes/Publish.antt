-- ===== src/Node/Volume/Remotes/Publish.antt =====
-- Publishing keeps every section of the config with an owner.
use csi_driver_rclone.Prelude.{
  ◌≡◌, refl, sym, subst, arith, inl, inr, none, some, List, Result, ok, err, Bool-cases,
}
use csi_driver_rclone.Text.{Text, text_eq}
use csi_driver_rclone.Text.Eq.{text_eq_iff}
use csi_driver_rclone.GoMap.{GoMap, Params, get, put}
use csi_driver_rclone.GoMap.Laws.{get-put, get-put_self}
use csi_driver_rclone.Status.{Status}
use csi_driver_rclone.Csi.{NodePublishVolumeRequest}
use csi_driver_rclone.Node.Calls.{Env, Node, Trace, MountContext, MountPoint}
use csi_driver_rclone.Node.Outcome.{Outcome}
use csi_driver_rclone.Node.Effects.{mounted}
use csi_driver_rclone.Node.Volume.{node_publish_volume}
use csi_driver_rclone.Node.Volume.Published.{At, OrIn, IsContext}
use csi_driver_rclone.Node.Volume.Published.Load.{load-Loaded}
use csi_driver_rclone.Node.Volume.Published.Mounting.{Tried}
use csi_driver_rclone.Node.Volume.Published.Request.{fs_path_of, publish_lem}
use csi_driver_rclone.Node.Volume.Remotes.{Owner, IsOwned, Within-IsOwned}

-- The target has no context yet, and every context has a mount point.
module _ (env : Env) (contexts : GoMap MountContext) (target : Text)
    (fresh : get contexts target ≡ none)
    (points : (t : Text) (mc : MountContext)
      → get contexts t ≡ some mc
      → (p : MountPoint) × (mc.mount_point ≡ some p)) where
  At-IsOwned :
      (asked : List (Text × Text)) (s : Node) → At contexts asked (Owner contexts) s → IsOwned s
  At-IsOwned asked s h =
      Within-IsOwned contexts s (λ n. record { standing = h.standing n; same = h.same }) points

  module _ (remotes : List Text) (mc : MountContext) (c : IsContext env target remotes mc) where
    put-Owner : (n : Text) → OrIn (Owner contexts) remotes n → Owner (put contexts target mc) n
    put-Owner n (inl (t, m, e, o)) = elim (Bool-cases (text_eq target t)) [
      | inl y ↦ let same : target ≡ t = (text_eq_iff target t).0 y in absurd (cc)
      | inr d ↦ (t, m, rw (get-put, d) e, o)
    ]
    put-Owner n (inr y) = (target, mc, get-put_self contexts target mc, rw c.has_remotes y)

    point_of_new :
        (t : Text) (m : MountContext)
        → get (put contexts target mc) t ≡ some m
        → (q : MountPoint) × (m.mount_point ≡ some q)
    point_of_new t m e = elim (Bool-cases (text_eq target t)) [
      | inl y ↦
          let same : target ≡ t = (text_eq_iff target t).0 y in
          let new = get-put_self contexts target mc in
          let e' : mc ≡ m = cc in
          (c.point, subst (λ x. x.mount_point ≡ some c.point) e' c.has_point)
      | inr d ↦ points t m (ground (arith, get-put contexts target mc t))
    ]

    put-IsOwned :
        (asked : List (Text × Text)) (s : Node)
        → At contexts asked (OrIn (Owner contexts) remotes) s
        → IsOwned (record s { mount_context = put s.mount_context target mc })
    put-IsOwned asked s h = record {
      owners =
          λ n l. subst (λ x. Owner (put x target mc) n) (sym h.same) (put-Owner n (h.standing n l));
      points = λ t m e. point_of_new t m (rw (← h.same) e);
    }

-- A publish request for a target without a context keeps every section of the config with an owner,
-- and every context with a mount point, whether it succeeds, fails or is refused, provided that
-- rclone updates every remote.
pub node_publish_volume-IsOwned :
    (env : Env) (updates : (t : Trace) (m : Text) (p : Params) → env.on_update_remote t m p ≡ ok tt)
    (req : NodePublishVolumeRequest) (s : Node)
    → IsOwned s
    → get s.mount_context req.target_path ≡ none
    → IsOwned (node_publish_volume env req s).1
node_publish_volume-IsOwned env updates req s h fresh = go (node_publish_volume env req s) (
    publish_lem env req contexts (mounted s.trace) (Owner contexts) IsOwned
      (load-Loaded contexts (mounted s.trace) (Owner contexts) env updates)
      (λ remotes mc t c g.
        put-IsOwned env contexts req.target_path fresh h.points remotes mc c _ t g)
      (λ e t y g. owned _ t g) (λ vl t g. record { owners = g.owners; points = g.points }) s
      (record { same = refl; mounts = refl; standing = h.owners }))
  where
    contexts : GoMap MountContext
    contexts = s.mount_context

    owned :
        (asked : List (Text × Text)) (t : Node) → At contexts asked (Owner contexts) t → IsOwned t
    owned = At-IsOwned env contexts req.target_path fresh h.points

    go :
        (r : Result Status (Unit {0}) × Node)
        → Outcome
            (λ _. IsOwned)
            (Tried env req.target_path (fs_path_of req) contexts (mounted s.trace) (Owner contexts))
            r
        → IsOwned r.1
    go (ok a, t) g = g
    go (err y, t) (inl g) = owned _ t g
    go (err y, t) (inr g) = owned _ t g
