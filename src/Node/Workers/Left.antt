-- ===== src/Node/Workers/Left.antt =====
-- What is left when all requests are answered, in whatever order their stages ran.
use csi_driver_rclone.Prelude.{
  ℕ, ◌≡◌, refl, sym, subst, arith, true, false, false≢true, none, some, Bool-cases, inl, inr, [],
  ok, ◌==◌,
}
use csi_driver_rclone.Text.{Text}
use csi_driver_rclone.GoMap.{Params, get}
use csi_driver_rclone.Locks.{has, try_acquire}
use csi_driver_rclone.Locks.Workers.{no_lock_left}
use csi_driver_rclone.Version.{Build}
use csi_driver_rclone.Driver.{DriverOptions, new_driver}
use csi_driver_rclone.Node.History.{new_node_server}
use csi_driver_rclone.Node.Calls.{Env, Node, Trace}
use csi_driver_rclone.Node.Effects.{live}
use csi_driver_rclone.Node.Workers.{
  Stage, idle, publish_requested, publish_locked, publish_prepared, publish_loaded, publish_mounted,
  unpublish_requested, unpublish_read, unpublish_unmounted, unpublish_cleared, unpublish_cleaned,
  answered, stage_step,
}
use csi_driver_rclone.Node.Workers.Reachable.{
  Phase, away, asking, busy, phase, System, move_stage, at_start, Step, begin_publish,
  begin_unpublish, go_on, Reach, start, next,
}
use csi_driver_rclone.Node.Workers.LockMoves.{
  LockMove, kept, rejected, took, refused, gave, step-LockMove,
}
use csi_driver_rclone.Node.Workers.Locking.{busy_unique, Reach-locks}
use csi_driver_rclone.Node.Workers.Moves.{
  held, read_at, read_mc, Pointed, IsLeaving, Move, Lesser-refl, leaving-Move,
}
use csi_driver_rclone.Node.Workers.Steps.{step-Move}
use csi_driver_rclone.Node.Workers.Owned.{Owned, IsSound, IsAlone, IsAt, Move-IsSound}

-- The volume that a worker is at work on is that of its target.
abbrev Named : (Text → Text) → Phase → Type 0
Named volume_of away = Unit
Named volume_of (asking volume_id target) = volume_id ≡ volume_of target
Named volume_of (busy volume_id target) = volume_id ≡ volume_of target

LockMove-Named :
    (volume_of : Text → Text) (p : Stage) (s : Node) (r : Stage × Node)
    → LockMove p s r
    → Named volume_of (phase p)
    → Named volume_of (phase r.0)
LockMove-Named volume_of p s r (kept b e) h = subst (Named volume_of) (sym b) h
LockMove-Named volume_of p s r (rejected v t a b e) h = rw b tt
LockMove-Named volume_of p s r (took v t a x b e) h = rw b (subst (Named volume_of) a h)
LockMove-Named volume_of p s r (refused v t a x b e) h = rw b tt
LockMove-Named volume_of p s r (gave v t a b e) h = rw b tt

-- A worker at a target has the lock of the target and of its volume.
IsAt-busy :
    (volume_of : Text → Text) (p : Stage) (t : Text)
    → Named volume_of (phase p)
    → IsAt p t
    → phase p ≡ busy (volume_of t) t
IsAt-busy volume_of (publish_locked req capability) t h (inl e) = ground (arith, h, e)
IsAt-busy volume_of (publish_prepared req pvp options) t h (inl e) = ground (arith, h, e)
IsAt-busy volume_of (publish_loaded req pvp options remotes) t h (inl e) = ground (arith, h, e)
IsAt-busy volume_of (publish_mounted req mc) t h (inl e) = ground (arith, h, e)
IsAt-busy volume_of (unpublish_cleared req) t h (inr (inl e)) = ground (arith, h, e)
IsAt-busy volume_of (unpublish_cleaned req) t h (inr (inl e)) = ground (arith, h, e)
IsAt-busy volume_of (unpublish_read req mc) t h (inr (inr e)) = ground (arith, h, e)
IsAt-busy volume_of (unpublish_unmounted req mc) t h (inr (inr e)) = ground (arith, h, e)
IsAt-busy volume_of _ t h (inl e) = absurd (cc)
IsAt-busy volume_of _ t h (inr (inl e)) = absurd (cc)
IsAt-busy volume_of _ t h (inr (inr e)) = absurd (cc)

-- Nothing is under way at a worker that has no lock.
away-held : (p : Stage) → phase p ≡ away → held p ≡ []
away-held idle e = refl
away-held (publish_requested req) e = absurd (cc)
away-held (unpublish_requested req) e = absurd (cc)
away-held (answered answer) e = refl
away-held _ e = absurd (cc)

begin-IsSound :
    (s : System) (i : ℕ) (q : Stage)
    → IsAlone s
    → s.stage i ≡ idle
    → IsLeaving q
    → IsSound s
    → IsSound (move_stage s i (q, s.node))
begin-IsSound s i q alone e l h =
    Move-IsSound s i (q, s.node) alone
      (leaving-Move (s.stage i) s.node (rw e refl) q s.node (Lesser-refl s.node) l) h

start-IsSound : (b : Build) (options : DriverOptions) → IsSound (at_start (new_driver b options))
unfolding new_node_server get
start-IsSound b options = record {
  owners = λ n l. absurd (cc);
  points = λ t mc e. absurd (cc);
  fresh = λ i t e. refl;
  pointed = λ i. tt;
  known = λ i t e. absurd (cc);
}

module _ {env : Env} {volume_of : Text → Text} where
  Step-Named :
      {s t : System}
      → Step env volume_of s t
      → ((i : ℕ) → Named volume_of (phase (s.stage i)))
      → (i : ℕ) → Named volume_of (phase (t.stage i))
  Step-Named {s} (begin_publish i req e named) h j = elim (Bool-cases (i == j)) [
    | inl y ↦ rw y named
    | inr n ↦ rw n (h j)
  ]
  Step-Named {s} (begin_unpublish i req e named) h j = elim (Bool-cases (i == j)) [
    | inl y ↦ rw y named
    | inr n ↦ rw n (h j)
  ]
  Step-Named {s} (go_on i p e a) h j = elim (Bool-cases (i == j)) [
    | inl y ↦ rw y (
        LockMove-Named volume_of p s.node (stage_step env p s.node) (step-LockMove env p s.node)
          (subst (λ q. Named volume_of (phase q)) e (h i)))
    | inr n ↦ rw n (h j)
  ]

  module _
      (updates : (t : Trace) (n : Text) (p : Params) → env.on_update_remote t n p ≡ ok tt) where
    Step-IsSound : {s t : System} → Step env volume_of s t → IsAlone s → IsSound s → IsSound t
    Step-IsSound {s} (begin_publish i req e named) alone h =
        begin-IsSound s i (publish_requested req) alone e
          (record {
            nothing = refl;
            not_publishing = refl;
            not_dropping = refl;
            not_reading = refl;
            pointed = tt;
          })
          h
    Step-IsSound {s} (begin_unpublish i req e named) alone h =
        begin-IsSound s i (unpublish_requested req) alone e
          (record {
            nothing = refl;
            not_publishing = refl;
            not_dropping = refl;
            not_reading = refl;
            pointed = tt;
          })
          h
    Step-IsSound {s} (go_on i p e a) alone h =
        Move-IsSound s i (stage_step env p s.node) alone
          (subst (λ q. Move q s.node (stage_step env p s.node)) (sym e)
            (step-Move env updates p s.node h.points (subst Pointed e (h.pointed i))
              (subst (λ q. (t : Text) → read_at q ≡ some t → get s.node.mount_context t ≡ read_mc q)
                e (h.known i))
              a))
          h

module _ {env : Env} {volume_of : Text → Text} {b : Build} {options : DriverOptions} where
  Reach-Named :
      {s : System} → Reach env volume_of b options s → (i : ℕ) → Named volume_of (phase (s.stage i))
  Reach-Named start i = tt
  Reach-Named (next r st) i = Step-Named st (Reach-Named r) i

  Reach-IsAlone : {s : System} → Reach env volume_of b options s → IsAlone s
  Reach-IsAlone {s} r i j t e f =
      busy_unique r i j (volume_of t) t (IsAt-busy volume_of (s.stage i) t (Reach-Named r i) e)
        (IsAt-busy volume_of (s.stage j) t (Reach-Named r j) f)

  module _
      (updates : (t : Trace) (n : Text) (p : Params) → env.on_update_remote t n p ≡ ok tt) where
    Reach-IsSound : {s : System} → Reach env volume_of b options s → IsSound s
    Reach-IsSound start = start-IsSound b options
    Reach-IsSound (next r st) = Step-IsSound updates st (Reach-IsAlone r) (Reach-IsSound r)

    -- While requests are handled at once, in whatever order their stages run, every section of rclone's
    -- config is among the remotes that a worker has loaded and that are not in a context yet, or is named
    -- by a context that no worker is about to delete: provided that rclone updates every remote, that a
    -- target is the target of one volume, and that no volume is published at a target that has a context.
    pub Reach-Owned :
        {s : System}
        → Reach env volume_of b options s
        → (n : Text) → live s.node.trace n ≡ true
        → Owned s n
    Reach-Owned r = (Reach-IsSound r).owners

    -- When all the workers have answered and no context is left, every lock can be taken and no section
    -- stands in rclone's config, whatever the requests were and in whatever order their stages ran:
    -- provided that rclone updates every remote, that a target is the target of one volume, and that no
    -- volume is published at a target that has a context.
    pub nothing_left_by_workers :
        {s : System}
        → Reach env volume_of b options s
        → ((i : ℕ) → phase (s.stage i) ≡ away)
        → ((t : Text) → get s.node.mount_context t ≡ none)
        → (key n : Text)
        → ((try_acquire s.node.volume_locks key).0 ≡ true) × (live s.node.trace n ≡ false)
    unfolding has
    nothing_left_by_workers {s} r quiet empty key n = (
      no_lock_left (Reach-locks r) (λ i. rw (quiet i) refl) key,
      elim (Bool-cases (live s.node.trace n)) [
        | inl l ↦ elim (Reach-Owned r n l) [
          | inl (i, y) ↦ let e = away-held (s.stage i) (quiet i) in absurd (false≢true (rw e at y))
          | inr (t, mc, e, o, nd) ↦ let e' = empty t in absurd (cc)
        ]
        | inr d ↦ d
      ],
    )
