-- ===== src/Node/Sync/Bounds.antt =====
-- The wait for uploads ends: at most five tries and thirty seconds of sleep, and earlier only when
-- the uploads are done or two minutes are over.
use csi_driver_rclone.Prelude.{
  ℕ, zero, suc, ◌+◌, ◌*◌, ◌≤◌, ◌<◌, ◌≡◌, ◌⊎◌, inl, inr, refl, arith, Bool, true, ◌&&◌, [], ◌∷◌,
  some, none, Option, ok, err, Result, ltb, if◌then◌else◌, Bool-cases,
}
use csi_driver_rclone.Node.Calls.{Env, Trace, Node, DiskCache, MountPoint, vfs_stats, sleep}
use csi_driver_rclone.Node.Monad.{continue_state}
use csi_driver_rclone.Node.Keeps.{Keeps}
use csi_driver_rclone.Node.Effects.{Calm}
use csi_driver_rclone.Node.Sync.{
  max_retries, sync_timeout, sync_fuel, back_off, all_clear, sync_loop, wait_for_vfs_cache_sync,
  synced,
}

-- The seconds slept so far.
abbrev pub slept : Trace → ℕ
slept [] = 0
slept (sleep n ∷ t) = n + slept t
slept (_ ∷ t) = slept t

square_le : (r : ℕ) → r ≤ max_retries → r * (r + 1) ≤ 30
square_le r h = grind arith

back_off_step :
    (r a b : ℕ)
    → r < max_retries
    → a + (r + 1) * (r + 1 + 1) ≤ back_off (r + 1) + b + 30
    → a + r * (r + 1) ≤ b + 30
unfolding back_off
back_off_step r a b h g = ground arith

module _ (E : Type 0) (env : Env) (id timeout : ℕ) where
  -- The test of the loop, and the state after the stats are read.
  abbrev again : ℕ → Node → Bool
  again r s = ltb (env.now s.trace) timeout && ltb r max_retries

  abbrev asked : Node → Node
  asked s = record s { trace = vfs_stats id ∷ s.trace }

  abbrev rested : ℕ → Node → Node
  rested r s = record s { trace = sleep (back_off (r + 1)) ∷ vfs_stats id ∷ s.trace }

  abbrev clear : Node → Bool
  clear s = all_clear (env.on_vfs_stats s.trace id)

  -- One round of the loop.
  abbrev round : ℕ → ℕ → Node → Result E ℕ × Node
  round fuel r s =
      if again r s
      then (if clear s
          then (ok r, asked s)
          else sync_loop {E = E} env id timeout fuel (r + 1) (rested r s))
      else (ok r, s)

  sync_loop-suc :
      (fuel r : ℕ) (s : Node) → sync_loop {E = E} env id timeout (suc fuel) r s ≡ round fuel r s
  unfolding sync_loop
  sync_loop-suc fuel r s = elim (Bool-cases (again r s)) [
    | inl a ↦ elim (Bool-cases (clear s)) [ inl c ↦ rw (a, c) | inr c ↦ rw (a, c) ]
    | inr a ↦ rw a
  ]

  -- The sleep of the rounds that are left.
  slept-loop :
      (fuel r : ℕ) (s : Node)
      → r ≤ max_retries
      → slept (sync_loop {E = E} env id timeout fuel r s).1.trace + r * (r + 1) ≤ slept s.trace + 30
  slept-loop zero r s h = unfold sync_loop in omega (arith, square_le r h)
  slept-loop (suc fuel) r s h = rw sync_loop-suc (elim (Bool-cases (again r s)) [
    | inl a ↦ elim (Bool-cases (clear s)) [
      | inl c ↦ rw (a, c) (omega (arith, square_le r h))
      | inr c ↦
          rw (a, c)
            (back_off_step r _ _ (ground arith)
              (slept-loop fuel (r + 1) (rested r s) (ground arith)))
    ]
    | inr a ↦ rw a (omega (arith, square_le r h))
  ])

  -- The state after the loop: the tries are used up, or the time is over, or the last thing that was
  -- done is a look at the stats that found no upload left.
  abbrev pub Ended : ℕ → Node → Type 0
  Ended r t =
      (r ≤ max_retries)
      × ((r ≡ max_retries)
          ⊎ ((timeout ≤ env.now t.trace)
              ⊎ ((u : Trace) × (t.trace ≡ vfs_stats id ∷ u)
                  × (all_clear (env.on_vfs_stats u id) ≡ true))))

  abbrev pub Ends : Result E ℕ × Node → Type 0
  Ends (ok r, t) = Ended r t
  Ends (err e, t) = ⊥

slept-synced :
    (E : Type 0) (env : Env) (id : ℕ) (stats : Option DiskCache) (s : Node)
    → slept (synced {E = E} env id stats s).1.trace ≤ slept s.trace + 30
unfolding synced
slept-synced E env id none s = omega arith
slept-synced E env id (some cache) s =
    let timeout = env.now s.trace + sync_timeout in
    rw (continue_state (sync_loop {E = E} env id timeout sync_fuel 0 s) tt)
      (omega (arith, slept-loop E env id timeout sync_fuel 0 s (omega arith)))

-- The whole wait for uploads sleeps at most thirty seconds, whatever the stats and the clock say.
pub slept-wait :
    (E : Type 0) (env : Env) (mount_point : MountPoint) (s : Node)
    → slept (wait_for_vfs_cache_sync {E = E} env mount_point s).1.trace ≤ slept s.trace + 30
unfolding wait_for_vfs_cache_sync
slept-wait E env mount_point s =
    slept-synced E env mount_point.id (env.on_vfs_stats s.trace mount_point.id)
      (record s { trace = vfs_stats mount_point.id ∷ s.trace })

-- A property that quiet calls leave alone is kept by the wait.
module _ {ℓ} {P : Node → Type ℓ} (calm : Calm P) (E : Type 0) (env : Env) where
  looked : (id : ℕ) (s : Node) → P s → P (asked E env id 0 s)
  looked id s h = (calm.quiet (vfs_stats id) refl).after s h

  loop-Keeps :
      (id timeout fuel r : ℕ) (s : Node) → P s → P (sync_loop {E = E} env id timeout fuel r s).1
  loop-Keeps id timeout zero r s h = unfold sync_loop in h
  loop-Keeps id timeout (suc fuel) r s h =
      rw sync_loop-suc (elim (Bool-cases (again E env id timeout r s)) [
        | inl a ↦ elim (Bool-cases (clear E env id timeout s)) [
          | inl c ↦ rw (a, c) (looked id s h)
          | inr c ↦
              rw (a, c)
                (loop-Keeps id timeout fuel (r + 1) (rested E env id timeout r s)
                  ((calm.quiet (sleep (back_off (r + 1))) refl).after _ (looked id s h)))
        ]
        | inr a ↦ rw a h
      ])

  synced-Keeps : (id : ℕ) (stats : Option DiskCache) → Keeps P (synced {E = E} env id stats)
  unfolding synced
  synced-Keeps id none = record { at = λ s h. h }
  synced-Keeps id (some cache) = record {
    at = λ s h.
        let timeout = env.now s.trace + sync_timeout in
        rw (continue_state (sync_loop {E = E} env id timeout sync_fuel 0 s) tt)
          (loop-Keeps id timeout sync_fuel 0 s h);
  }

  pub wait-Keeps :
      (mount_point : MountPoint) → Keeps P (wait_for_vfs_cache_sync {E = E} env mount_point)
  unfolding wait_for_vfs_cache_sync
  wait-Keeps mount_point = record {
    at = λ s h.
        (synced-Keeps mount_point.id (env.on_vfs_stats s.trace mount_point.id)).at
          (record s { trace = vfs_stats mount_point.id ∷ s.trace })
          ((calm.quiet (vfs_stats mount_point.id) refl).after s h);
  }
