-- ===== src/Node/Workers/Moves.antt =====
-- What the stages do to the contexts and to the sections of rclone's config.
use csi_driver_rclone.Prelude.{
  ◌≡◌, ◌⊎◌, refl, subst, arith, true, false, Option, none, some, inr, List, [],
}
use csi_driver_rclone.Text.{Text}
use csi_driver_rclone.GoMap
use csi_driver_rclone.GoMap.{GoMap, Params, get, put}
use csi_driver_rclone.Locks.{has}
use csi_driver_rclone.Node.Calls.{Node, MountPoint, MountContext}
use csi_driver_rclone.Node.Effects.{live, live-Calm, Calm}
use csi_driver_rclone.Node.Volume.Unpublish.{Lasting}
use csi_driver_rclone.Node.Workers.{
  Stage, publish_locked, publish_prepared, publish_loaded, publish_failed, publish_mounted,
  unpublish_read, unpublish_unmounted, unpublish_cleared, unpublish_cleaned,
}

-- The remotes that a worker has loaded and that no context names yet.
abbrev pub held : Stage → List Text
held (publish_loaded req pvp options remotes) = remotes
held (publish_failed req remotes e) = remotes
held (publish_mounted req mc) = mc.remotes
held _ = []

-- The target that a worker is publishing at, and the target whose sections it has deleted.
abbrev pub publishing_at : Stage → Option Text
publishing_at (publish_locked req capability) = some req.target_path
publishing_at (publish_prepared req pvp options) = some req.target_path
publishing_at (publish_loaded req pvp options remotes) = some req.target_path
publishing_at (publish_mounted req mc) = some req.target_path
publishing_at _ = none

abbrev pub dropping_at : Stage → Option Text
dropping_at (unpublish_cleared req) = some req.target_path
dropping_at (unpublish_cleaned req) = some req.target_path
dropping_at _ = none

-- The target whose context a worker has read and is to unmount, and what it has read.
abbrev pub read_at : Stage → Option Text
read_at (unpublish_read req mc) = some req.target_path
read_at (unpublish_unmounted req mc) = some req.target_path
read_at _ = none

abbrev pub read_mc : Stage → Option MountContext
read_mc (unpublish_read req mc) = mc
read_mc (unpublish_unmounted req mc) = some mc
read_mc _ = none

-- A context that is about to be set has a mount point.
abbrev pub Pointed : Stage → Type 0
Pointed (publish_mounted req mc) = (p : MountPoint) × (mc.mount_point ≡ some p)
Pointed _ = Unit

abbrev pub HasPoints : GoMap MountContext → Type 0
HasPoints contexts =
    (t : Text) (mc : MountContext)
    → get contexts t ≡ some mc
    → (p : MountPoint) × (mc.mount_point ≡ some p)

-- A stage with which nothing is under way.
pub record IsLeaving (q : Stage) : Type 0 where
  pub nothing : held q ≡ []
  pub not_publishing : publishing_at q ≡ none
  pub not_dropping : dropping_at q ≡ none
  pub not_reading : read_at q ≡ none
  pub pointed : Pointed q

-- A stage that leaves the contexts alone. A section that stands after it stood before and was not held,
-- or is held by the worker.
pub record IsOther (p : Stage) (s : Node) (r : Stage × Node) : Type 0 where
  pub same : r.1.mount_context ≡ s.mount_context
  pub standing :
      (n : Text)
      → live r.1.trace n ≡ true
      → (has (held r.0) n ≡ true) ⊎ ((live s.trace n ≡ true) × (has (held p) n ≡ false))
  pub dropped :
      (t : Text) (mc : MountContext) (n : Text)
      → dropping_at r.0 ≡ some t
      → get s.mount_context t ≡ some mc
      → live r.1.trace n ≡ true
      → (dropping_at p ≡ some t) ⊎ (has mc.remotes n ≡ false)
  pub read : (t : Text) → read_at r.0 ≡ some t → get s.mount_context t ≡ read_mc r.0
  pub target :
      (t : Text)
      → publishing_at r.0 ≡ some t
      → (publishing_at p ≡ some t) ⊎ (get s.mount_context t ≡ none)
  pub pointed : Pointed r.0

pub data Move (p : Stage) (s : Node) (r : Stage × Node) : Type 0 where
  other : IsOther p s r → Move p s r
  setting :
      (t : Text) (mc : MountContext)
      → publishing_at p ≡ some t
      → held p ≡ mc.remotes
      → (q : MountPoint) → mc.mount_point ≡ some q
      → IsLeaving r.0
      → r.1.mount_context ≡ put s.mount_context t mc
      → r.1.trace ≡ s.trace
      → Move p s r
  deleting :
      (t : Text)
      → dropping_at p ≡ some t
      → held p ≡ []
      → IsLeaving r.0
      → r.1.mount_context ≡ GoMap.delete s.mount_context t
      → r.1.trace ≡ s.trace
      → Move p s r

-- The contexts are the same and no section is new.
pub record Lesser (s t : Node) : Type 0 where
  pub same : t.mount_context ≡ s.mount_context
  pub fewer : (n : Text) → live t.trace n ≡ true → live s.trace n ≡ true

pub Lesser-Calm : (s : Node) → Calm (Lesser s)
Lesser-Calm s = record {
  quiet = λ c q. record {
    after = λ t h. record {
      same = h.same;
      fewer = λ n.
          ((live-Calm (λ b. b ≡ true → live s.trace n ≡ true) n).quiet c q).after t (h.fewer n);
    };
  };
}

pub Lesser-Lasting : (s : Node) → Lasting (Lesser s)
Lesser-Lasting s = record {
  calm = Lesser-Calm s;
  deleting = λ m. record {
    after = λ t h. record { same = h.same; fewer = λ n l. h.fewer n (ground (arith, l)) };
  };
  unmounting = λ n. record { after = λ t h. record { same = h.same; fewer = h.fewer } };
  cleaning = λ n. record { after = λ t h. record { same = h.same; fewer = h.fewer } };
  forcing = λ p n. record { after = λ t h. record { same = h.same; fewer = h.fewer } };
}

pub Lesser-refl : (s : Node) → Lesser s s
Lesser-refl s = record { same = refl; fewer = λ n l. l }

-- The worker has nothing of its own before it, and comes to a stage with nothing under way.
module _ (p : Stage) (s : Node) (free : held p ≡ []) where
  pub not_held : (n : Text) → has (held p) n ≡ false
  unfolding has
  not_held n = rw free refl

  pub leaving-Move : (q : Stage) (t : Node) → Lesser s t → IsLeaving q → Move p s (q, t)
  leaving-Move q t h l = other (record {
    same = h.same;
    standing = λ n y. inr (h.fewer n y, not_held n);
    dropped = λ u mc n e. absurd (let e' = l.not_dropping in cc);
    read = λ u e. absurd (let e' = l.not_reading in cc);
    target = λ u e. absurd (let e' = l.not_publishing in cc);
    pointed = l.pointed;
  })

  -- It goes on at its target, without remotes.
  pub publishing-Move :
      (q : Stage) (t : Node) (u : Text)
      → Lesser s t
      → publishing_at q ≡ some u
      → dropping_at q ≡ none
      → read_at q ≡ none
      → Pointed q
      → (publishing_at p ≡ some u) ⊎ (get s.mount_context u ≡ none)
      → Move p s (q, t)
  publishing-Move q t u h e d unread k before = other (record {
    same = h.same;
    standing = λ n y. inr (h.fewer n y, not_held n);
    dropped = λ v mc n e'. absurd (cc);
    read = λ v e'. absurd (cc);
    target = λ v e'.
        let same : u ≡ v = cc in
        subst (λ w. (publishing_at p ≡ some w) ⊎ (get s.mount_context w ≡ none)) same before;
    pointed = k;
  })
