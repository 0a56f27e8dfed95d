-- ===== src/Node/Workers/Steps.antt =====
-- Each stage is such a move.
use csi_driver_rclone.Prelude.{◌≡◌, refl, some, ok, inr}
use csi_driver_rclone.Text.{Text}
use csi_driver_rclone.GoMap.{Params, get}
use csi_driver_rclone.Node.Calls.{Env, Node, Trace}
use csi_driver_rclone.Node.Mount.Laws.{create-Keeps}
use csi_driver_rclone.Node.Volume.{set_mount_context, delete_mount_context}
use csi_driver_rclone.Node.Workers.{
  Stage, idle, publish_requested, publish_locked, publish_prepared, publish_loaded, publish_failed,
  publish_mounted, unpublish_requested, unpublish_locked, unpublish_read, unpublish_unmounted,
  unpublish_cleared, unpublish_cleaned, unmounting, cleanup_call, releasing, answered, stage_step,
}
use csi_driver_rclone.Node.Workers.Reachable.{Admissible}
use csi_driver_rclone.Node.Volume.{point_of, get_mount_context}
use csi_driver_rclone.Node.Workers.Unmounting.{cleanup-Keeps as cleanup_call-Keeps}
use csi_driver_rclone.Node.Workers.Moves.{
  read_at, read_mc, Pointed, HasPoints, Move, setting, deleting, Lesser-Calm, Lesser-Lasting,
  Lesser-refl, leaving-Move, publishing-Move,
}
use csi_driver_rclone.Node.Workers.PublishMoves.{
  releasing-IsLeaving, answered-IsLeaving, relocked-Lesser, enter-Move, prepare-Move, load-Move,
  mounted-Move, cleaned-Move,
}
use csi_driver_rclone.Node.Workers.UnpublishMoves.{
  reading-IsOther, unmount-Move, deleted-Move, cleaned_up-Move,
}

module _ (env : Env)
    (updates : (t : Trace) (m : Text) (q : Params) → env.on_update_remote t m q ≡ ok tt) where
  pub step-Move :
      (p : Stage) (s : Node)
      → HasPoints s.mount_context
      → Pointed p
      → ((t : Text) → read_at p ≡ some t → get s.mount_context t ≡ read_mc p)
      → Admissible p s
      → Move p s (stage_step env p s)
  unfolding stage_step set_mount_context delete_mount_context get_mount_context
  step-Move idle s points k known a = leaving-Move idle s refl idle s (Lesser-refl s) (record {
    nothing = refl;
    not_publishing = refl;
    not_dropping = refl;
    not_reading = refl;
    pointed = tt;
  })
  step-Move (publish_requested req) s points k known a =
      enter-Move (publish_requested req) s refl _ req.volume_id req.target_path _ (λ capability vl.
        publishing-Move (publish_requested req) s refl _ _ req.target_path (relocked-Lesser s vl)
          refl refl refl tt (inr a))
  step-Move (publish_locked req capability) s points k known a =
      prepare-Move (publish_locked req capability) s refl env req capability _ refl
  step-Move (publish_prepared req pvp options) s points k known a =
      load-Move (publish_prepared req pvp options) s refl env updates req options _ refl
  step-Move (publish_loaded req pvp options remotes) s points k known a =
      mounted-Move req pvp options remotes s _ (
        (create-Keeps (Lesser-Calm s)
            (λ m t f. record { after = λ u h. record { same = h.same; fewer = h.fewer } }) env _
            req.target_path options pvp.params).at
          s (Lesser-refl s))
  step-Move (publish_failed req remotes e) s points k known a = cleaned-Move req remotes e s
  step-Move (publish_mounted req mc) s points k known a =
      setting req.target_path mc refl refl k.0 k.1 (releasing-IsLeaving _ _ _) refl refl
  step-Move (unpublish_requested req) s points k known a =
      enter-Move (unpublish_requested req) s refl _ req.volume_id req.target_path _ (λ x vl.
        leaving-Move (unpublish_requested req) s refl _ _ (relocked-Lesser s vl) (record {
          nothing = refl;
          not_publishing = refl;
          not_dropping = refl;
          not_reading = refl;
          pointed = tt;
        }))
  step-Move (unpublish_locked req) s points k known a =
      reading-IsOther (unpublish_locked req)
        (unpublish_read req (get_mount_context s req.target_path)) s s refl (Lesser-refl s) refl
        refl tt (λ u e. let same : req.target_path ≡ u = cc in rw (← same) refl)
  step-Move (unpublish_read req mc) s points k known a =
      unmount-Move env req mc mc (point_of mc) s points (known req.target_path refl) refl
  step-Move (unpublish_unmounted req mc) s points k known a =
      deleted-Move req mc s (known req.target_path refl)
  step-Move (unpublish_cleared req) s points k known a =
      cleaned_up-Move req s (unmounting req.target_path (cleanup_call env req.target_path) s)
        ((cleanup_call-Keeps (Lesser-Lasting s) env req.target_path).at s (Lesser-refl s))
  step-Move (unpublish_cleaned req) s points k known a =
      deleting req.target_path refl refl (releasing-IsLeaving _ _ _) refl refl
  step-Move (releasing volume_id target answer) s points k known a =
      leaving-Move (releasing volume_id target answer) s refl _ _ (relocked-Lesser s _)
        (answered-IsLeaving _)
  step-Move (answered answer) s points k known a =
      leaving-Move (answered answer) s refl _ s (Lesser-refl s) (answered-IsLeaving _)
