-- ===== src/Node/Workers/Owned.antt =====
-- Who has a section of rclone's config while several requests are handled: a worker or a context.
use csi_driver_rclone.Prelude.{
  ℕ, ◌≡◌, ◌≢◌, ◌∙◌, ◌⊎◌, refl, ap, sym, subst, arith, true, false, false≢true, none, some,
  Bool-cases, inl, inr, [], ◌==◌,
}
use csi_driver_rclone.Text.{Text, text_eq}
use csi_driver_rclone.Text.Eq.{text_eq_iff, text_eq_ne}
use csi_driver_rclone.GoMap
use csi_driver_rclone.GoMap.{GoMap, get, put}
use csi_driver_rclone.GoMap.Laws.{get-put, get-put_self, get-delete}
use csi_driver_rclone.Locks.{has}
use csi_driver_rclone.Node.Calls.{Node, MountPoint, MountContext}
use csi_driver_rclone.Node.Effects.{live}
use csi_driver_rclone.Node.Workers.{Stage}
use csi_driver_rclone.Node.Workers.Reachable.{System, set_stage, move_stage}
use csi_driver_rclone.Node.Workers.Moves.{
  held, read_at, read_mc, publishing_at, dropping_at, Pointed, HasPoints, IsLeaving, IsOther, Move,
  other, setting, deleting,
}

-- A worker holds it, or a context names it that no worker is about to delete.
abbrev pub Owned : System → Text → Type 0
Owned s n =
    ((i : ℕ) × (has (held (s.stage i)) n ≡ true))
    ⊎ ((t : Text) × (mc : MountContext) × (get s.node.mount_context t ≡ some mc)
        × (has mc.remotes n ≡ true)
        × ((i : ℕ) → dropping_at (s.stage i) ≢ some t))

pub record IsSound (s : System) : Type 0 where
  pub owners : (n : Text) → live s.node.trace n ≡ true → Owned s n
  pub points : HasPoints s.node.mount_context
  pub fresh :
      (i : ℕ) (t : Text) → publishing_at (s.stage i) ≡ some t → get s.node.mount_context t ≡ none
  pub pointed : (i : ℕ) → Pointed (s.stage i)
  pub known :
      (i : ℕ) (t : Text)
      → read_at (s.stage i) ≡ some t
      → get s.node.mount_context t ≡ read_mc (s.stage i)

-- What holds of the new stage of a worker and of the stages of the others holds of all.
set_stage-split :
    (P : Stage → Type 0) (stage : ℕ → Stage) (i : ℕ) (p : Stage) (j : ℕ)
    → (i ≡ j → P p)
    → (i ≢ j → P (stage j))
    → P (set_stage stage i p j)
set_stage-split P stage i p j h g = elim (Bool-cases (i == j)) [
  | inl y ↦ rw y (h (ground (arith, y)))
  | inr n ↦ rw n (g (λ e. ground (arith, n, e)))
]

set_stage-self :
    (P : Stage → Type 0) (stage : ℕ → Stage) (i : ℕ) (p : Stage) → P p → P (set_stage stage i p i)
set_stage-self P stage i p h = set_stage-split P stage i p i (λ e. h) (λ n. absurd (n refl))

-- At one target there is one worker.
abbrev pub IsAt : Stage → Text → Type 0
IsAt p t = (publishing_at p ≡ some t) ⊎ ((dropping_at p ≡ some t) ⊎ (read_at p ≡ some t))

abbrev pub IsAlone : System → Type 0
IsAlone s = (i j : ℕ) (t : Text) → IsAt (s.stage i) t → IsAt (s.stage j) t → i ≡ j

module _ (s : System) (i : ℕ) (p' : Stage) (n' : Node) (h : IsSound s) where
  -- No worker is about to delete the context, if the one that moves is not.
  not_dropped :
      (t : Text)
      → dropping_at p' ≢ some t
      → ((j : ℕ) → i ≢ j → dropping_at (s.stage j) ≢ some t)
      → (j : ℕ) → dropping_at (set_stage s.stage i p' j) ≢ some t
  not_dropped t d g j =
      set_stage-split (λ q. dropping_at q ≢ some t) s.stage i p' j (λ e. d) (λ n. g j n)

  -- Another worker holds it still.
  held_elsewhere :
      (n : Text) (j : ℕ)
      → has (held (s.stage j)) n ≡ true
      → has (held (s.stage i)) n ≡ false
      → has (held (set_stage s.stage i p' j)) n ≡ true
  held_elsewhere n j y free =
      set_stage-split (λ q. has (held q) n ≡ true) s.stage i p' j
        (λ e.
          absurd (false≢true (sym free ∙ subst (λ k. has (held (s.stage k)) n ≡ true) (sym e) y)))
        (λ d. y)

  Pointed-after : Pointed p' → (j : ℕ) → Pointed (set_stage s.stage i p' j)
  Pointed-after k j = set_stage-split Pointed s.stage i p' j (λ e. k) (λ d. h.pointed j)

  other-IsSound : IsOther (s.stage i) s.node (p', n') → IsSound (move_stage s i (p', n'))
  other-IsSound m = record {
    owners = λ n y. owned n y (m.standing n y);
    points = subst HasPoints (sym m.same) h.points;
    fresh = λ j t.
        set_stage-split (λ q. publishing_at q ≡ some t → get n'.mount_context t ≡ none) s.stage i p'
          j (λ e y. rw m.same (elim (m.target t y) [ inl old ↦ h.fresh i t old | inr new ↦ new ]))
          (λ d y. rw m.same (h.fresh j t y));
    pointed = Pointed-after m.pointed;
    known = λ j t.
        set_stage-split (λ q. read_at q ≡ some t → get n'.mount_context t ≡ read_mc q) s.stage i p'
          j (λ e y. rw m.same (m.read t y)) (λ d y. rw m.same (h.known j t y));
  }
    where
      owned :
          (n : Text)
          → live n'.trace n ≡ true
          → (has (held p') n ≡ true)
            ⊎ ((live s.node.trace n ≡ true) × (has (held (s.stage i)) n ≡ false))
          → Owned (move_stage s i (p', n')) n
      owned n y (inl new) = inl (i, set_stage-self (λ q. has (held q) n ≡ true) s.stage i p' new)
      owned n y (inr (old, free)) = elim (h.owners n old) [
        | inl (j, x) ↦ inl (j, held_elsewhere n j x free)
        | inr (t, mc, e, o, nd) ↦ inr (
          t,
          mc,
          rw m.same e,
          o,
          not_dropped t
              (λ d. elim (m.dropped t mc n d e y) [
                | inl already ↦ nd i already
                | inr gone ↦ false≢true (sym gone ∙ o)
              ])
              (λ j x. nd j),
        )
      ]

  module _ (l : IsLeaving p') where
    leaves : (t : Text) → dropping_at p' ≢ some t
    leaves t d = let e = l.not_dropping in cc

    not_publishing : (t : Text) → publishing_at p' ≡ some t → ⊥
    not_publishing t d = let e = l.not_publishing in cc

    not_reading : (t : Text) → read_at p' ≡ some t → ⊥
    not_reading t d = let e = l.not_reading in cc

    deleting-IsSound :
        IsAlone s
        → (t : Text) → dropping_at (s.stage i) ≡ some t
        → held (s.stage i) ≡ []
        → n'.mount_context ≡ GoMap.delete s.node.mount_context t
        → n'.trace ≡ s.node.trace
        → IsSound (move_stage s i (p', n'))
    unfolding has
    deleting-IsSound alone t d free contexts trace = record {
      owners = λ n y. elim (h.owners n (rw (← trace) y)) [
        | inl (j, x) ↦ inl (j, held_elsewhere n j x (rw free refl))
        | inr (u, mc, e, o, nd) ↦
            inr (u, mc, kept u mc e (nd i), o, not_dropped u (leaves u) (λ j x. nd j))
      ];
      points = λ u mc e. h.points u mc (before u mc (rw (← contexts) e));
      fresh = λ j u.
          set_stage-split (λ q. publishing_at q ≡ some u → get n'.mount_context u ≡ none) s.stage i
            p' j (λ e y. absurd (not_publishing u y))
            (λ x y.
              let none_yet = h.fresh j u y in rw (contexts, get-delete) (ground (arith, none_yet)));
      pointed = Pointed-after l.pointed;
      known = λ j u.
          set_stage-split (λ r. read_at r ≡ some u → get n'.mount_context u ≡ read_mc r) s.stage i
            p' j (λ e y. absurd (not_reading u y))
            (λ apart y.
              let other : t ≢ u =
                λ e. apart (alone i j u (inr (inl (d ∙ ap some e))) (inr (inr y))) in
              rw (contexts, get-delete, text_eq_ne t u other) (h.known j u y));
    }
      where
        kept :
            (u : Text) (mc : MountContext)
            → get s.node.mount_context u ≡ some mc
            → dropping_at (s.stage i) ≢ some u
            → get n'.mount_context u ≡ some mc
        kept u mc e apart = elim (Bool-cases (text_eq t u)) [
          | inl y ↦ absurd (apart (let same : t ≡ u = (text_eq_iff t u).0 y in rw (← same) d))
          | inr n ↦ rw (contexts, get-delete, n) e
        ]

        before :
            (u : Text) (mc : MountContext)
            → get (GoMap.delete s.node.mount_context t) u ≡ some mc
            → get s.node.mount_context u ≡ some mc
        before u mc e = ground (arith, get-delete s.node.mount_context t u, e)

    module _ (alone : IsAlone s) (t : Text) (mc : MountContext) (q : MountPoint)
        (at : publishing_at (s.stage i) ≡ some t) (remotes : held (s.stage i) ≡ mc.remotes)
        (point : mc.mount_point ≡ some q) where
      -- The target had no context.
      old_apart :
          (u : Text) (m : MountContext) → get s.node.mount_context u ≡ some m → text_eq t u ≡ false
      old_apart u m e = elim (Bool-cases (text_eq t u)) [
        | inl y ↦
            let same : t ≡ u = (text_eq_iff t u).0 y in
            let none_yet = h.fresh i t at in
            let none_here : get s.node.mount_context u ≡ none = rw (← same) none_yet in absurd (cc)
        | inr n ↦ n
      ]

      new-Owned :
          (n : Text)
          → live s.node.trace n ≡ true
          → Owned
              (record {
                node = record n' { mount_context = put s.node.mount_context t mc };
                stage = set_stage s.stage i p';
              })
              n
      new-Owned n y = elim (h.owners n y) [
        | inl (j, x) ↦ elim (Bool-cases (has mc.remotes n)) [
          | inl mine ↦ inr (
            t,
            mc,
            get-put_self s.node.mount_context t mc,
            mine,
            not_dropped t (leaves t) (λ k apart d. apart (alone i k t (inl at) (inr (inl d)))),
          )
          | inr not_mine ↦ inl (j, held_elsewhere n j x (rw remotes not_mine))
        ]
        | inr (u, m, e, o, nd) ↦
            inr (u, m, rw (get-put, old_apart u m e) e, o, not_dropped u (leaves u) (λ j x. nd j))
      ]

      new_point :
          (u : Text) (m : MountContext)
          → get (put s.node.mount_context t mc) u ≡ some m
          → (p : MountPoint) × (m.mount_point ≡ some p)
      new_point u m e = elim (Bool-cases (text_eq t u)) [
        | inl y ↦
            let e' : mc ≡ m = ground (arith, get-put s.node.mount_context t mc u, y, e) in
            (q, subst (λ x. x.mount_point ≡ some q) e' point)
        | inr n ↦ h.points u m (ground (arith, get-put s.node.mount_context t mc u, n, e))
      ]

      setting-IsSound :
          n'.mount_context ≡ put s.node.mount_context t mc
          → n'.trace ≡ s.node.trace
          → IsSound (move_stage s i (p', n'))
      setting-IsSound contexts trace = record {
        owners = λ n y.
            subst
              (λ m.
                Owned
                  (record {
                    node = record n' { mount_context = m };
                    stage = set_stage s.stage i p';
                  })
                  n)
              (sym contexts) (new-Owned n (rw (← trace) y));
        points = subst HasPoints (sym contexts) new_point;
        fresh = λ j u.
            set_stage-split (λ r. publishing_at r ≡ some u → get n'.mount_context u ≡ none) s.stage
              i p' j (λ e y. absurd (not_publishing u y))
              (λ apart y.
                let other : t ≢ u = λ e. apart (alone i j u (inl (at ∙ ap some e)) (inl y)) in
                rw (contexts, get-put, text_eq_ne t u other) (h.fresh j u y));
        pointed = Pointed-after l.pointed;
        known = λ j u.
            set_stage-split (λ r. read_at r ≡ some u → get n'.mount_context u ≡ read_mc r) s.stage i
              p' j (λ e y. absurd (not_reading u y))
              (λ apart y.
                let other : t ≢ u = λ e. apart (alone i j u (inl (at ∙ ap some e)) (inr (inr y))) in
                rw (contexts, get-put, text_eq_ne t u other) (h.known j u y));
      }

-- A move of one worker keeps the state sound.
pub Move-IsSound :
    (s : System) (i : ℕ) (r : Stage × Node)
    → IsAlone s
    → Move (s.stage i) s.node r
    → IsSound s
    → IsSound (move_stage s i r)
Move-IsSound s i (p', n') alone (other m) h = other-IsSound s i p' n' h m
Move-IsSound s i (p', n') alone (setting t mc at remotes q point l contexts trace) h =
    setting-IsSound s i p' n' h l alone t mc q at remotes point contexts trace
Move-IsSound s i (p', n') alone (deleting t d free l contexts trace) h =
    deleting-IsSound s i p' n' h l alone t d free contexts trace
