-- ===== src/Node/Workers/UnpublishMoves.antt =====
-- The stages of an unpublish request, as moves.
use csi_driver_rclone.Prelude.{
  ◌≡◌, refl, ap, true, false, Option, none, some, Result, ok, err, inl, inr, [],
}
use csi_driver_rclone.Text.{Text}
use csi_driver_rclone.GoMap.{get}
use csi_driver_rclone.Status.{Status}
use csi_driver_rclone.Locks.{has}
use csi_driver_rclone.Csi.{NodeUnpublishVolumeRequest}
use csi_driver_rclone.Node.Calls.{Env, Node, MountPoint, MountContext}
use csi_driver_rclone.Node.Effects.{live}
use csi_driver_rclone.Node.Volume.Remotes.Unpublish.{Gone}
use csi_driver_rclone.Node.Workers.{
  Stage, unpublish_read, unpublish_unmounted, unpublish_cleared, unpublish_cleaned, unmounting,
  unmount_calls, unmount_stage, or_release,
}
use csi_driver_rclone.Node.Workers.Parts.{deletes, deletes_total}
use csi_driver_rclone.Node.Volume.{point_of}
use csi_driver_rclone.Node.Keeps.{Post-ok}
use csi_driver_rclone.Node.Volume.Remotes.Unpublish.{sections-Gone}
use csi_driver_rclone.Node.Workers.Unmounting.{calls-Keeps, deletes-Keeps}
use csi_driver_rclone.Node.Workers.Moves.{
  read_at, read_mc, held, publishing_at, dropping_at, Pointed, HasPoints, Move, other, Lesser,
  Lesser-Lasting, Lesser-refl, leaving-Move, not_held,
}
use csi_driver_rclone.Node.Workers.PublishMoves.{releasing-IsLeaving}

-- The worker goes on with what it has read.
pub reading-IsOther :
    (p q : Stage) (s t : Node)
    → held p ≡ []
    → Lesser s t
    → publishing_at q ≡ none
    → dropping_at q ≡ none
    → Pointed q
    → ((u : Text) → read_at q ≡ some u → get s.mount_context u ≡ read_mc q)
    → Move p s (q, t)
reading-IsOther p q s t free h np nd k known = other (record {
  same = h.same;
  standing = λ n y. inr (h.fewer n y, not_held p s free n);
  dropped = λ u mc n e. absurd (cc);
  read = known;
  target = λ u e. absurd (cc);
  pointed = k;
})

-- It comes to have no section left of the context.
cleared-Move :
    (p : Stage) (req : NodeUnpublishVolumeRequest) (s t : Node)
    → held p ≡ []
    → Lesser s t
    → ((mc : MountContext) (n : Text)
        → get s.mount_context req.target_path ≡ some mc
        → live t.trace n ≡ true
        → has mc.remotes n ≡ false)
    → Move p s (unpublish_cleared req, t)
cleared-Move p req s t free h gone = other (record {
  same = h.same;
  standing = λ n y. inr (h.fewer n y, not_held p s free n);
  dropped = λ u mc n e f y. let same : req.target_path ≡ u = cc in inr (gone mc n (rw same f) y);
  read = λ u e. absurd (cc);
  target = λ u e. absurd (cc);
  pointed = tt;
})

pub unmount-Move :
    (env : Env) (req : NodeUnpublishVolumeRequest) (mc o : Option MountContext)
    (q : Option MountPoint) (s : Node)
    → HasPoints s.mount_context
    → get s.mount_context req.target_path ≡ o
    → point_of o ≡ q
    → Move (unpublish_read req mc) s (unmount_stage env req o q s)
unmount-Move env req mc (some m) (some q) s points e f =
    go (unmounting req.target_path (unmount_calls env m q) s)
      ((calls-Keeps (Lesser-Lasting s) env m q).at s (Lesser-refl s))
  where
    go :
        (r : Result Status (Unit {0}) × Node)
        → Lesser s r.1
        → Move
            (unpublish_read req mc)
            s
            (or_release req.volume_id req.target_path r (λ _. unpublish_unmounted req m))
    go (ok a, t) h =
        reading-IsOther (unpublish_read req mc) (unpublish_unmounted req m) s t refl h refl refl tt
          (λ u x. let same : req.target_path ≡ u = cc in rw (← same) e)
    go (err x, t) h = leaving-Move (unpublish_read req mc) s refl _ t h (releasing-IsLeaving _ _ _)
unmount-Move env req mc (some m) none s points e f =
    cleared-Move (unpublish_read req mc) req s s refl (Lesser-refl s)
      (λ m' n g y. let (q, point) = points req.target_path m e in absurd (cc))
unmount-Move env req mc none q s points e f =
    cleared-Move (unpublish_read req mc) req s s refl (Lesser-refl s) (λ m' n g y. absurd (cc))

pub deleted-Move :
    (req : NodeUnpublishVolumeRequest) (mc : MountContext) (s : Node)
    → get s.mount_context req.target_path ≡ some mc
    → Move (unpublish_unmounted req mc) s (unpublish_cleared req, (deletes mc s).1)
deleted-Move req mc s e =
    cleared-Move (unpublish_unmounted req mc) req s (deletes mc s).1 refl
      ((deletes-Keeps (Lesser-Lasting s) mc).at s (Lesser-refl s))
      (λ m n g y.
        let same : mc ≡ m = cc in
        rw (← same) (
          Post-ok (Gone mc.remotes n) (deletes mc s) (ap (λ r. r.0) (deletes_total mc s))
            (sections-Gone n Text mc.remotes s) y))

pub cleaned_up-Move :
    (req : NodeUnpublishVolumeRequest) (s : Node) (r : Result Status (Unit {0}) × Node)
    → Lesser s r.1
    → Move
        (unpublish_cleared req)
        s
        (or_release req.volume_id req.target_path r (λ _. unpublish_cleaned req))
unfolding has
cleaned_up-Move req s (ok a, t) h = other (record {
  same = h.same;
  standing = λ n y. inr (h.fewer n y, refl);
  dropped = λ u mc n e f y. inl e;
  read = λ u e. absurd (cc);
  target = λ u e. absurd (cc);
  pointed = tt;
})
cleaned_up-Move req s (err x, t) h =
    leaving-Move (unpublish_cleared req) s refl _ t h (releasing-IsLeaving _ _ _)
