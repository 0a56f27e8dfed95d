-- ===== src/Node/Volume/Published/Load.antt =====
-- What loading a config leaves in rclone's config: its sections, and those of old.
use csi_driver_rclone.Prelude.{
  ◌≡◌, ◌∙◌, refl, subst, arith, true, false, Bool, sym, false≢true, if◌then◌else◌, ◌||◌, inl, inr,
  List, [], ◌∷◌, Result, ok, err, Bool-cases, All,
}
use csi_driver_rclone.Text.{Text, text_eq, is_empty, codes}
use csi_driver_rclone.GoMap.{GoMap, Params}
use csi_driver_rclone.Status.{Status, invalid_argument, with_code}
use csi_driver_rclone.Locks.{has}
use csi_driver_rclone.Params.{PublishVolumeParams}
use csi_driver_rclone.Node.Calls.{Env, Node, Trace, MountContext, set_value, update_remote}
use csi_driver_rclone.Node.Monad.{continue}
use csi_driver_rclone.Node.Keeps.{Stable}
use csi_driver_rclone.Node.Outcome.{Outcome, Outcome-Keeps, Outcome-weaken}
use csi_driver_rclone.Node.Effects.{live, mounted-config}
use csi_driver_rclone.Node.Config.{
  load_rclone_config, load_remotes, parse_all_config_remotes, cleanup_config_remotes,
}
use csi_driver_rclone.Node.Config.Laws.{
  names, remotes-Keeps, remotes_total, load-Keeps, cleanup-Keeps, live-delete_sections,
}
use csi_driver_rclone.Node.Volume.Published.{At, OrIn}

module _ (contexts : GoMap MountContext) (asked : List (Text × Text)) (W : Text → Type 0) where
  -- Where loading returns, what is new is in the list that it returns; where it fails, nothing is new.
  abbrev pub Loaded : Result Status (List Text) × Node → Type 0
  Loaded = Outcome (λ remotes. At contexts asked (OrIn W remotes)) (At contexts asked W)

  -- A write to a section that stands for a good reason.
  written-Stable :
      (name : Text)
      → ((n : Text) → text_eq name n ≡ true → W n)
      → ((k v : Text) → Stable (At contexts asked W) (set_value name k v))
        × ((p : Params) → Stable (At contexts asked W) (update_remote name p))
  written-Stable name listed = (
    λ k v. record {
      after =
          λ s h. record { same = h.same; mounts = h.mounts; standing = λ n. go s n (h.standing n) };
    },
    λ p. record {
      after =
          λ s h. record { same = h.same; mounts = h.mounts; standing = λ n. go s n (h.standing n) };
    },
  )
    where
      go :
          (s : Node) (n : Text)
          → (live s.trace n ≡ true → W n)
          → (text_eq name n || live s.trace n) ≡ true
          → W n
      go s n h l = elim (Bool-cases (text_eq name n)) [
        | inl y ↦ listed n y
        | inr d ↦ h (ground (arith, l))
      ]

All-listed {ℓ} :
    (ns all : List Text) (Q : Text → Type ℓ)
    → ((n : Text) → has ns n ≡ true → has all n ≡ true)
    → ((name : Text) → ((n : Text) → text_eq name n ≡ true → has all n ≡ true) → Q name)
    → All Q ns
unfolding has
All-listed [] all Q sub q = tt
All-listed (name ∷ ns) all Q sub q = (
  q name (λ n e. sub n (ground (arith, e))),
  All-listed ns all Q (λ n e. sub n (ground (arith, e))) q,
)

pub live-cleanup :
    (remotes : List Text) (s : Node) (n : Text)
    → live (cleanup_config_remotes {E = Status} remotes s).1.trace n
      ≡ (if has remotes n then false else live s.trace n)
unfolding cleanup_config_remotes has
live-cleanup [] s n = refl
live-cleanup (m ∷ remotes) s n = live-delete_sections Status (m ∷ remotes) s n

module _ (contexts : GoMap MountContext) (asked : List (Text × Text)) (W : Text → Type 0) where
  At-widen :
      (remotes : List Text) (s : Node)
      → At contexts asked W s
      → At contexts asked (OrIn W remotes) s
  At-widen remotes s h = record {
    same = h.same;
    mounts = h.mounts;
    standing = λ n l. inl (h.standing n l);
  }

  ok-Loaded :
      (r : Result Status (List Text) × Node) (remotes : List Text)
      → r.0 ≡ ok remotes
      → At contexts asked (OrIn W remotes) r.1
      → Loaded contexts asked W r
  ok-Loaded (ok ns, s) remotes e h =
      let e' : remotes ≡ ns = cc in subst (λ l. At contexts asked (OrIn W l) s) e' h
  ok-Loaded (err x, s) remotes e h = absurd (cc)

  -- After the cleaning up, no section stands but for an old reason.
  pub At-cleanup :
      (remotes : List Text) (s : Node)
      → At contexts asked (OrIn W remotes) s
      → At contexts asked W (cleanup_config_remotes {E = Status} remotes s).1
  At-cleanup remotes s h =
      let kept =
        (cleanup-Keeps {P = At contexts asked (λ n. Unit)} {E = Status} remotes (λ m. record {
          after = λ t g. record { same = g.same; mounts = g.mounts; standing = λ n l. tt };
        })).at
          s (record { same = h.same; mounts = h.mounts; standing = λ n l. tt }) in
      record {
        same = kept.same;
        mounts = kept.mounts;
        standing = λ n l. old n (h.standing n) (live-cleanup remotes s n) l;
      }
    where
      old :
          (n : Text)
          → (live s.trace n ≡ true → OrIn W remotes n)
          → {b : Bool} → b ≡ (if has remotes n then false else live s.trace n)
          → b ≡ true
          → W n
      old n k e l = elim (Bool-cases (has remotes n)) [
        | inl y ↦ absurd (ground (arith, e, l))
        | inr d ↦ elim (k (ground (arith, e, l))) [
          | inl o ↦ o
          | inr y ↦ absurd (false≢true (sym d ∙ y))
        ]
      ]

  module _ (env : Env)
      (updates : (t : Trace) (m : Text) (p : Params) → env.on_update_remote t m p ≡ ok tt) where
    parsed-Loaded :
        (params : Params) (r : Result Status (GoMap Params)) (s : Node)
        → At contexts asked W s
        → Loaded contexts asked W
            (continue (r, s) (λ all_remotes. load_remotes env params all_remotes []))
    parsed-Loaded params (ok all_remotes) s h =
        ok-Loaded (load_remotes env params all_remotes [] s) (names all_remotes)
          (remotes_total env params updates all_remotes [] s)
          ((remotes-Keeps env params all_remotes [] (
              All-listed (names all_remotes) (names all_remotes) _ (λ n e. e)
                (λ name listed.
                  written-Stable contexts asked (OrIn W (names all_remotes)) name
                    (λ n e. inr (listed n e))))).at
            s (At-widen (names all_remotes) s h))
    parsed-Loaded params (err e) s h = h

    -- Where rclone updates every remote, a failure leaves nothing behind.
    pub load-Loaded :
        (pvp : PublishVolumeParams) (s : Node)
        → At contexts asked W s
        → Loaded contexts asked W (load_rclone_config env pvp s)
    unfolding load_rclone_config
    load-Loaded pvp s h = elim (Bool-cases (is_empty pvp.config_data)) [
      | inl y ↦ rw y (At-widen [] s h)
      | inr d ↦ rw d (
          parsed-Loaded pvp.params
            (with_code invalid_argument (codes "failed to parse configData: ")
              (parse_all_config_remotes env pvp.config_data))
            s h)
    ]

-- Where nothing is asked of the sections, any environment will do.
pub load-Loaded_any :
    (contexts : GoMap MountContext) (asked : List (Text × Text)) (env : Env)
    (pvp : PublishVolumeParams) (s : Node)
    → At contexts asked (λ n. Unit) s
    → Loaded contexts asked (λ n. Unit) (load_rclone_config env pvp s)
load-Loaded_any contexts asked env pvp s h =
    Outcome-weaken _ _ (λ remotes. At contexts asked (λ n. Unit)) (At contexts asked (λ n. Unit)) _
      (Outcome-Keeps (At contexts asked (λ n. Unit)) _ (load_rclone_config env pvp) s
        (load-Keeps env pvp (λ c q. record {
          after = λ t g. record {
            same = g.same;
            mounts = mounted-config c q t.trace ∙ g.mounts;
            standing = λ n l. tt;
          };
        }))
        h (λ t g. g))
      (λ remotes t g. At-widen contexts asked (λ n. Unit) remotes t g) (λ t g. g)
