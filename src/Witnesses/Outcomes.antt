-- ===== src/Witnesses/Outcomes.antt =====
-- What requests leave behind, on the sample.
use csi_driver_rclone.Prelude.{◌≡◌, refl, true, false, some, List, [], ◌∷◌}
use csi_driver_rclone.Text.{codes, text_eq}
use csi_driver_rclone.GoMap.{get}
use csi_driver_rclone.Locks.{has}
use csi_driver_rclone.Params.{build_fs_path}
use csi_driver_rclone.Controller.{resolved_path, read_parameters, read_init}
use csi_driver_rclone.Node.Effects.{live, mounted}
use csi_driver_rclone.Node.Outcome.{Outcome}
use csi_driver_rclone.Node.Volume.{node_publish_volume, node_unpublish_volume}
use csi_driver_rclone.Node.Volume.Published.Laws.{
  IsPublished, IsRefused, node_publish_volume_lem, node_publish_volume-live,
}
use csi_driver_rclone.Node.Volume.Unpublished.{IsUnpublished, IsStill, node_unpublish_volume_lem}
use csi_driver_rclone.Node.Volume.Shared.{node_unpublish_volume-shared}
use csi_driver_rclone.Node.Abstract.{
  Request, publish, unpublish, handle_all, has_volume, replay, handle_all_refines,
}
use csi_driver_rclone.Node.RoundTrip.{IsUndone, unpublish-publish}
use csi_driver_rclone.Provision.{node_publish_volume-create_volume}
use csi_driver_rclone.Witnesses.Sample.{sample_env, sample_publish, sample_unpublish, sample_node}
use csi_driver_rclone.Witnesses.Metrics.{sample_point, point_context}
use csi_driver_rclone.Witnesses.Runs.{
  shared_node, failing_env, b2_node, claim_request, claimed_volume, claimed_publish, answers,
}

node_publish_volume_example :
    Outcome
      (λ _. IsPublished sample_env sample_publish sample_node)
      (IsRefused sample_publish sample_node)
      (node_publish_volume sample_env sample_publish sample_node)
node_publish_volume_example =
    node_publish_volume_lem sample_env sample_publish sample_node (λ e. refl)

-- The mount fails, and the section `b2` was there before.
node_publish_volume-live_example : live b2_node.trace (codes "b2") ≡ true
node_publish_volume-live_example =
    node_publish_volume-live failing_env sample_publish b2_node (codes "b2") (λ t m p. refl)
      answers.failed.1 answers.kept

node_unpublish_volume_example :
    Outcome
      (λ _. IsUnpublished (codes "/t") shared_node)
      (IsStill (codes "/t") shared_node)
      (node_unpublish_volume sample_env sample_unpublish shared_node)
node_unpublish_volume_example = node_unpublish_volume_lem sample_env sample_unpublish shared_node

-- The section `s3` is taken away, and the mount at `/t2` uses it still.
node_unpublish_volume-shared_example :
    (get
        (node_unpublish_volume sample_env sample_unpublish shared_node).1.mount_context
        (codes "/t2")
      ≡ some (point_context 2))
    × (live (node_unpublish_volume sample_env sample_unpublish shared_node).1.trace (codes "s3")
        ≡ false)
unfolding get has text_eq
node_unpublish_volume-shared_example =
    node_unpublish_volume-shared sample_env sample_unpublish shared_node (codes "s3") (codes "/t2")
      (point_context 1) (point_context 2) (sample_point 1) refl refl refl refl refl (λ e. cc)
      answers.shared

abbrev some_requests : List Request
some_requests = publish sample_publish ∷ publish sample_publish ∷ unpublish sample_unpublish ∷ []

handle_all_refines_example :
    has_volume (handle_all sample_env some_requests sample_node).1 (codes "/t")
    ≡ replay some_requests
        (handle_all sample_env some_requests sample_node).0
        (has_volume sample_node)
        (codes "/t")
handle_all_refines_example =
    handle_all_refines sample_env (λ e. refl) some_requests sample_node (codes "/t")

unpublish-publish_example :
    IsUndone sample_env sample_publish sample_node
      (node_publish_volume sample_env sample_publish sample_node).1
      (node_unpublish_volume sample_env sample_unpublish
        (node_publish_volume sample_env sample_publish sample_node).1).1
unpublish-publish_example =
    unpublish-publish sample_env sample_publish sample_unpublish sample_node (λ e. refl) refl
      answers.published answers.unpublished

node_publish_volume-create_volume_example :
    mounted (node_publish_volume sample_env claimed_publish sample_node).1.trace
    ≡ (
      codes "/t",
      build_fs_path
          (codes "s3")
          (resolved_path (λ m. m) (read_parameters read_init claim_request.parameters)),
    )
      ∷ []
unfolding get text_eq
node_publish_volume-create_volume_example =
    node_publish_volume-create_volume sample_env (λ m. m) claim_request claimed_volume (codes "s3")
      claimed_publish sample_node (λ e. refl) answers.created (refl, (refl, (refl, (refl, tt))))
      refl (rw answers.resolved refl) (refl, (refl, tt)) refl answers.claimed
