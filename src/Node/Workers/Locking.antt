-- ===== src/Node/Workers/Locking.antt =====
-- The workers take and release the locks as the workers of Locks.Workers do.
use mathlib.Core.Path.{fun_ext}
use csi_driver_rclone.Prelude.{ℕ, ◌≡◌, ◌∙◌, refl, ap, sym, subst, arith, Bool-cases, inl, inr, ◌==◌}
use csi_driver_rclone.Text.{Text}
use csi_driver_rclone.Locks.{lock_key}
use csi_driver_rclone.Locks.Workers.{
  Pc, working, set_pc, System as LockSystem, Step as LockStep, accept, abort, finish,
  Reach as LockReach,
}
use csi_driver_rclone.Locks.Workers
use csi_driver_rclone.Locks.Workers.{mutual_exclusion}
use csi_driver_rclone.Version.{Build}
use csi_driver_rclone.Driver.{DriverOptions, new_driver}
use csi_driver_rclone.Node.History.{new_node_server}
use csi_driver_rclone.Node.Calls.{Env, Node}
use csi_driver_rclone.Node.Workers.{Stage, publish_requested, unpublish_requested, stage_step}
use csi_driver_rclone.Node.Workers.Reachable.{
  Phase, busy, phase, System, set_stage, move_stage, Step, begin_publish, begin_unpublish, go_on,
  Reach, start, next,
}
use csi_driver_rclone.Node.Workers.LockMoves.{
  LockMove, kept, rejected, took, refused, gave, step-LockMove,
}

abbrev pc_of : Phase → Pc
pc_of (busy volume_id target) = working (lock_key volume_id target)
pc_of _ = Workers.idle

-- The workers of the locks that the workers of the node service are.
abbrev pub locks_of : System → LockSystem
locks_of s = record { vl = s.node.volume_locks; pc = λ j. pc_of (phase (s.stage j)) }

LockReach-eq :
    (s t : LockSystem) → s.vl ≡ t.vl → ((j : ℕ) → s.pc j ≡ t.pc j) → LockReach s → LockReach t
LockReach-eq s t e f r =
    subst (λ vl. LockReach (record { vl = vl; pc = t.pc })) e
      (subst (λ pc. LockReach (record { vl = s.vl; pc = pc })) (fun_ext f) r)

moved_pc :
    (stage : ℕ → Stage) (i : ℕ) (p' : Stage) (c : Pc)
    → pc_of (phase p') ≡ c
    → (j : ℕ) → set_pc (λ k. pc_of (phase (stage k))) i c j ≡ pc_of (phase (set_stage stage i p' j))
moved_pc stage i p' c e j = elim (Bool-cases (i == j)) [ inl y ↦ rw y (sym e) | inr n ↦ rw n refl ]

still_pc :
    (stage : ℕ → Stage) (i : ℕ) (p' : Stage)
    → pc_of (phase p') ≡ pc_of (phase (stage i))
    → (j : ℕ) → pc_of (phase (stage j)) ≡ pc_of (phase (set_stage stage i p' j))
still_pc stage i p' e j = elim (Bool-cases (i == j)) [
  | inl y ↦ let same : i ≡ j = ground (arith, y) in rw y (rw (← same) (sym e))
  | inr n ↦ rw n refl
]

LockMove-Reach :
    (s : System) (i : ℕ) (r : Stage × Node)
    → LockMove (s.stage i) s.node r
    → LockReach (locks_of s)
    → LockReach (locks_of (move_stage s i r))
LockMove-Reach s i (p', n') (kept b e) h =
    LockReach-eq (locks_of s) (locks_of (move_stage s i (p', n'))) (sym e)
      (still_pc s.stage i p' (ap pc_of b)) h
LockMove-Reach s i (p', n') (rejected v t free b e) h =
    LockReach-eq _ (locks_of (move_stage s i (p', n'))) (sym e)
      (still_pc s.stage i p' (ap pc_of b ∙ sym (ap pc_of free))) h
LockMove-Reach s i (p', n') (took v t free a b e) h =
    LockReach-eq _ (locks_of (move_stage s i (p', n'))) (sym e)
      (moved_pc s.stage i p' (working (lock_key v t)) (ap pc_of b))
      (Workers.next h (accept i (lock_key v t) (ap pc_of free) a))
LockMove-Reach s i (p', n') (refused v t free a b e) h =
    LockReach-eq _ (locks_of (move_stage s i (p', n'))) (sym e)
      (still_pc s.stage i p' (ap pc_of b ∙ sym (ap pc_of free)))
      (Workers.next h (abort i (lock_key v t) (ap pc_of free) a))
LockMove-Reach s i (p', n') (gave v t had b e) h =
    LockReach-eq _ (locks_of (move_stage s i (p', n'))) (sym e)
      (moved_pc s.stage i p' Workers.idle (ap pc_of b))
      (Workers.next h (finish i (lock_key v t) (ap pc_of had)))

Step-locks :
    {env : Env} {volume_of : Text → Text} {s t : System}
    → Step env volume_of s t
    → LockReach (locks_of s)
    → LockReach (locks_of t)
Step-locks {s} (begin_publish i req e named) h =
    LockReach-eq _ (locks_of (move_stage s i (publish_requested req, s.node))) refl
      (still_pc s.stage i (publish_requested req) (rw e refl)) h
Step-locks {s} (begin_unpublish i req e named) h =
    LockReach-eq _ (locks_of (move_stage s i (unpublish_requested req, s.node))) refl
      (still_pc s.stage i (unpublish_requested req) (rw e refl)) h
Step-locks {env} {s} (go_on i p e a) h =
    LockMove-Reach s i (stage_step env p s.node)
      (subst (λ q. LockMove q s.node (stage_step env p s.node)) (sym e)
        (step-LockMove env p s.node))
      h

module _ {env : Env} {volume_of : Text → Text} {b : Build} {options : DriverOptions} where
  -- Whatever the workers of the node service do, those of the locks can do.
  pub Reach-locks : {s : System} → Reach env volume_of b options s → LockReach (locks_of s)
  unfolding new_node_server new_driver
  Reach-locks start = Workers.start
  Reach-locks (next r st) = Step-locks st (Reach-locks r)

  -- Two workers that have the lock of one volume and target are one worker.
  pub busy_unique :
      {s : System}
      → Reach env volume_of b options s
      → (i j : ℕ) (volume_id target : Text) → phase (s.stage i) ≡ busy volume_id target
      → phase (s.stage j) ≡ busy volume_id target
      → i ≡ j
  busy_unique r i j volume_id target e f =
      mutual_exclusion (Reach-locks r) i j (lock_key volume_id target) (ap pc_of e) (ap pc_of f)
