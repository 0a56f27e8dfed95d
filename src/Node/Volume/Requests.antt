-- ===== src/Node/Volume/Requests.antt =====
-- The two handlers as a whole: locks, and what they never do.
use csi_driver_rclone.Prelude.{
  ℕ, List, ◌≡◌, refl, ◌∙◌, true, ◌∷◌, ◌++◌, ok, err, Result, Bool-cases, inl, inr,
}
use csi_driver_rclone.Text.{Text, codes}
use csi_driver_rclone.Status.{Status, error, aborted}
use csi_driver_rclone.Locks.{VolumeLocks, has, lock_key}
use csi_driver_rclone.Locks.Laws.{release-try_acquire}
use csi_driver_rclone.Csi.{VolumeCapability, NodePublishVolumeRequest, NodeUnpublishVolumeRequest}
use csi_driver_rclone.Node.Calls.{Env, Node}
use csi_driver_rclone.Node.Monad.{M, continue}
use csi_driver_rclone.Node.Keeps.{Keeps, Keeps-bind, Keeps-lift}
use csi_driver_rclone.Node.Effects.{
  unmounts, unmounts-Calm, unmounts-config, unmounted, unmounted-Calm, unmounted-config, cleaned,
  cleaned-Calm, cleaned-config, locks-Calm,
}
use csi_driver_rclone.Node.Volume.Publish.{Unmoved, body-Keeps}
use csi_driver_rclone.Node.Volume.Unpublish.{Lasting, unpublish-Keeps}
use csi_driver_rclone.Node.Volume.{
  validate_publish_volume_request, validate_unpublish_volume_request, with_volume_lock,
  publish_body, unpublish_body, node_publish_volume, node_unpublish_volume,
}

-- A body that does not touch the locks, run under the lock, leaves the set of keys as it was.
lock-restored :
    (A : Type 0) (volume_id target : Text) (body : M Status A) (s : Node)
    → ((vl : VolumeLocks) → Keeps (λ s'. s'.volume_locks ≡ vl) body)
    → (j : Text)
    → has (with_volume_lock volume_id target body s).1.volume_locks.locks j
      ≡ has s.volume_locks.locks j
unfolding with_volume_lock
lock-restored A volume_id target body s k j =
    let key = lock_key volume_id target in
    elim (Bool-cases (has s.volume_locks.locks key)) [
      | inl busy ↦ rw busy
      | inr free ↦
          let taken : VolumeLocks = record { locks = key ∷ s.volume_locks.locks } in
          let kept : (body (record s { volume_locks = taken })).1.volume_locks ≡ taken =
            (k taken).at (record s { volume_locks = taken }) refl in
          rw (free, kept) (rw free at (release-try_acquire s.volume_locks key j free))
    ]

pub locks-Unmoved : (vl : VolumeLocks) → Unmoved (λ s. s.volume_locks ≡ vl)
locks-Unmoved vl = record {
  calm = locks-Calm (λ l. l ≡ vl);
  config = λ c q. record { after = λ s h. h };
  mounting = λ m t f. record { after = λ s h. h };
  context = λ m s h. h;
}

pub locks-Lasting : (vl : VolumeLocks) → Lasting (λ s. s.volume_locks ≡ vl)
locks-Lasting vl = record {
  calm = locks-Calm (λ l. l ≡ vl);
  deleting = λ n. record { after = λ s h. h };
  unmounting = λ n. record { after = λ s h. h };
  cleaning = λ n. record { after = λ s h. h };
  forcing = λ p n. record { after = λ s h. h };
}

publish_locked :
    (env : Env) (req : NodePublishVolumeRequest) (valid : Result Status VolumeCapability) (s : Node)
    (j : Text)
    → has
        (continue
          (valid, s)
          (λ capability.
            with_volume_lock req.volume_id req.target_path
              (publish_body env req capability))).1.volume_locks.locks
        j
      ≡ has s.volume_locks.locks j
publish_locked env req (ok capability) s j =
    lock-restored (Unit {0}) req.volume_id req.target_path (publish_body env req capability) s
      (λ vl. body-Keeps (locks-Unmoved vl) env req capability) j
publish_locked env req (err e) s j = refl

unpublish_locked :
    (env : Env) (req : NodeUnpublishVolumeRequest) (valid : Result Status (Unit {0})) (s : Node)
    (j : Text)
    → has
        (continue
          (valid, s)
          (λ _.
            with_volume_lock req.volume_id req.target_path
              (unpublish_body env req.target_path))).1.volume_locks.locks
        j
      ≡ has s.volume_locks.locks j
unpublish_locked env req (ok _) s j =
    lock-restored (Unit {0}) req.volume_id req.target_path (unpublish_body env req.target_path) s
      (λ vl. unpublish-Keeps (locks-Lasting vl) env req.target_path (λ m s h. h)) j
unpublish_locked env req (err e) s j = refl

-- A publish request leaves every lock as it found it, whether it succeeds, fails or is refused.
pub node_publish_volume-locks :
    (env : Env) (req : NodePublishVolumeRequest) (s : Node) (j : Text)
    → has (node_publish_volume env req s).1.volume_locks.locks j ≡ has s.volume_locks.locks j
unfolding node_publish_volume
node_publish_volume-locks env req s j =
    publish_locked env req (validate_publish_volume_request req) s j

-- An unpublish request leaves every lock as it found it, whether it succeeds, fails or is refused.
pub node_unpublish_volume-locks :
    (env : Env) (req : NodeUnpublishVolumeRequest) (s : Node) (j : Text)
    → has (node_unpublish_volume env req s).1.volume_locks.locks j ≡ has s.volume_locks.locks j
unfolding node_unpublish_volume
node_unpublish_volume-locks env req s j =
    unpublish_locked env req (validate_unpublish_volume_request req) s j

abbrev pub busy_status : Text → Status
busy_status volume_id =
    error aborted
      (codes "An operation with the given Volume ID " ++ (volume_id ++ codes " already exists"))

lock-busy :
    {A : Type 0} (volume_id target : Text) (body : M Status A) (s : Node)
    → has s.volume_locks.locks (lock_key volume_id target) ≡ true
    → with_volume_lock volume_id target body s ≡ (err (busy_status volume_id), s)
unfolding with_volume_lock
lock-busy volume_id target body s h = rw h

-- A valid publish request whose key is held is aborted, with no call made and nothing changed.
pub node_publish_volume-busy :
    (env : Env) (req : NodePublishVolumeRequest) (s : Node) (capability : VolumeCapability)
    → validate_publish_volume_request req ≡ ok capability
    → has s.volume_locks.locks (lock_key req.volume_id req.target_path) ≡ true
    → node_publish_volume env req s ≡ (err (busy_status req.volume_id), s)
unfolding node_publish_volume
node_publish_volume-busy env req s capability valid h =
    rw valid (lock-busy req.volume_id req.target_path (publish_body env req capability) s h)

module _ {ℓ} (P : Node → Type ℓ)
    (unlocked : (vl : VolumeLocks) (s : Node) → P s → P (record s { volume_locks = vl })) where
  lock-Keeps :
      {A : Type 0} (volume_id target : Text) (body : M Status A)
      → Keeps P body
      → Keeps P (with_volume_lock volume_id target body)
  unfolding with_volume_lock
  lock-Keeps volume_id target body k = record {
    at = λ s h. elim (Bool-cases (has s.volume_locks.locks (lock_key volume_id target))) [
      | inl busy ↦ rw busy h
      | inr free ↦ rw free (unlocked _ _ (k.at _ (unlocked _ s h)))
    ];
  }

  publish-Keeps :
      (env : Env) (req : NodePublishVolumeRequest)
      → Unmoved P
      → Keeps P (node_publish_volume env req)
  unfolding node_publish_volume
  publish-Keeps env req u =
      Keeps-bind _ _ (Keeps-lift (validate_publish_volume_request req)) (λ capability.
        lock-Keeps req.volume_id req.target_path (publish_body env req capability)
          (body-Keeps u env req capability))

unmounts-Unmoved : (k : ℕ) → Unmoved (λ s. unmounts s.trace ≡ k)
unmounts-Unmoved k = record {
  calm = unmounts-Calm (λ n. n ≡ k);
  config = λ c q. record { after = λ s h. unmounts-config c q s.trace ∙ h };
  mounting = λ m t f. record { after = λ s h. h };
  context = λ m s h. h;
}

-- A publish request asks neither the mounter nor rclone to unmount anything.
pub node_publish_volume-unmounts :
    (env : Env) (req : NodePublishVolumeRequest) (s : Node)
    → unmounts (node_publish_volume env req s).1.trace ≡ unmounts s.trace
node_publish_volume-unmounts env req s =
    (publish-Keeps (λ s'. unmounts s'.trace ≡ unmounts s.trace) (λ vl s' h. h) env req
        (unmounts-Unmoved (unmounts s.trace))).at
      s refl

unmounted-Unmoved : (dropped : List ℕ) → Unmoved (λ s. unmounted s.trace ≡ dropped)
unmounted-Unmoved dropped = record {
  calm = unmounted-Calm (λ l. l ≡ dropped);
  config = λ c q. record { after = λ s h. unmounted-config c q s.trace ∙ h };
  mounting = λ m t f. record { after = λ s h. h };
  context = λ m s h. h;
}

-- Nor does it ask rclone to unmount a mount by its number.
pub node_publish_volume-unmounted :
    (env : Env) (req : NodePublishVolumeRequest) (s : Node)
    → unmounted (node_publish_volume env req s).1.trace ≡ unmounted s.trace
node_publish_volume-unmounted env req s =
    (publish-Keeps (λ s'. unmounted s'.trace ≡ unmounted s.trace) (λ vl s' h. h) env req
        (unmounted-Unmoved (unmounted s.trace))).at
      s refl

cleaned-Unmoved : (swept : List Text) → Unmoved (λ s. cleaned s.trace ≡ swept)
cleaned-Unmoved swept = record {
  calm = cleaned-Calm (λ l. l ≡ swept);
  config = λ c q. record { after = λ s h. cleaned-config c q s.trace ∙ h };
  mounting = λ m t f. record { after = λ s h. h };
  context = λ m s h. h;
}

-- Nor does it ask the mounter to clean up a path.
pub node_publish_volume-cleaned :
    (env : Env) (req : NodePublishVolumeRequest) (s : Node)
    → cleaned (node_publish_volume env req s).1.trace ≡ cleaned s.trace
node_publish_volume-cleaned env req s =
    (publish-Keeps (λ s'. cleaned s'.trace ≡ cleaned s.trace) (λ vl s' h. h) env req
        (cleaned-Unmoved (cleaned s.trace))).at
      s refl
