-- ===== src/Node/Effects.antt =====
-- What a trace amounts to: the remotes that stand in rclone's config, the mounts that were made, and
-- the times that something was unmounted.
use csi_driver_rclone.Prelude.{
  ℕ, suc, ◌≡◌, Bool, true, false, List, [], ◌∷◌, ◌||◌, if◌then◌else◌, refl, sym, subst,
}
use csi_driver_rclone.Text.{Text, text_eq}
use csi_driver_rclone.GoMap.{GoMap}
use csi_driver_rclone.Locks.{VolumeLocks}
use csi_driver_rclone.Node.Calls.{
  Call, Trace, Node, MountContext, set_value, update_remote, delete_section, mount, unmount,
  unmount_mount_point, cleanup_mount_point, cleanup_mount_with_force,
}
use csi_driver_rclone.Node.Keeps.{Stable}

-- Does the section stand in the config? A value that is set makes it, and `DeleteSection` removes it.
abbrev pub live : Trace → Text → Bool
live [] n = false
live (set_value section k v ∷ t) n = text_eq section n || live t n
live (update_remote section p ∷ t) n = text_eq section n || live t n
live (delete_section section ∷ t) n = if text_eq section n then false else live t n
live (_ ∷ t) n = live t n

-- The number of mounts that were asked for.
abbrev pub mounts : Trace → ℕ
mounts [] = 0
mounts (mount m p f ∷ t) = suc (mounts t)
mounts (_ ∷ t) = mounts t

-- The targets and the file systems of those mounts, newest first.
abbrev pub mounted : Trace → List (Text × Text)
mounted [] = []
mounted (mount method target fs_path ∷ t) = (target, fs_path) ∷ mounted t
mounted (_ ∷ t) = mounted t

-- The mounts that were asked to unmount by their numbers, newest first.
abbrev pub unmounted : Trace → List ℕ
unmounted [] = []
unmounted (unmount_mount_point id ∷ t) = id ∷ unmounted t
unmounted (_ ∷ t) = unmounted t

-- The paths that the mounter was asked to clean up, newest first.
abbrev pub cleaned : Trace → List Text
cleaned [] = []
cleaned (cleanup_mount_point p ∷ t) = p ∷ cleaned t
cleaned (cleanup_mount_with_force p n ∷ t) = p ∷ cleaned t
cleaned (_ ∷ t) = cleaned t

-- The number of unmounts of any kind that were asked for.
abbrev pub unmounts : Trace → ℕ
unmounts [] = 0
unmounts (unmount p ∷ t) = suc (unmounts t)
unmounts (unmount_mount_point i ∷ t) = suc (unmounts t)
unmounts (cleanup_mount_point p ∷ t) = suc (unmounts t)
unmounts (cleanup_mount_with_force p n ∷ t) = suc (unmounts t)
unmounts (_ ∷ t) = unmounts t

-- The calls that change neither the config nor what is mounted.
abbrev pub is_quiet : Call → Bool
is_quiet (set_value section k v) = false
is_quiet (update_remote section p) = false
is_quiet (delete_section section) = false
is_quiet (mount m p f) = false
is_quiet (unmount p) = false
is_quiet (unmount_mount_point i) = false
is_quiet (cleanup_mount_point p) = false
is_quiet (cleanup_mount_with_force p n) = false
is_quiet _ = true

-- A property that no quiet call changes.
pub record Calm {ℓ} (P : Node → Type ℓ) : Type ℓ where
  pub quiet : (c : Call) → is_quiet c ≡ true → Stable P c

live-quiet : (c : Call) (t : Trace) (n : Text) → is_quiet c ≡ true → live (c ∷ t) n ≡ live t n
live-quiet (set_value section k v) t n h = cc
live-quiet (update_remote section p) t n h = cc
live-quiet (delete_section section) t n h = cc
live-quiet _ t n h = refl

mounts-quiet : (c : Call) (t : Trace) → is_quiet c ≡ true → mounts (c ∷ t) ≡ mounts t
mounts-quiet (mount m p f) t h = cc
mounts-quiet _ t h = refl

mounted-quiet : (c : Call) (t : Trace) → is_quiet c ≡ true → mounted (c ∷ t) ≡ mounted t
mounted-quiet (mount m p f) t h = cc
mounted-quiet _ t h = refl

unmounted-quiet : (c : Call) (t : Trace) → is_quiet c ≡ true → unmounted (c ∷ t) ≡ unmounted t
unmounted-quiet (unmount_mount_point i) t h = cc
unmounted-quiet _ t h = refl

cleaned-quiet : (c : Call) (t : Trace) → is_quiet c ≡ true → cleaned (c ∷ t) ≡ cleaned t
cleaned-quiet (cleanup_mount_point p) t h = cc
cleaned-quiet (cleanup_mount_with_force p n) t h = cc
cleaned-quiet _ t h = refl

unmounts-quiet : (c : Call) (t : Trace) → is_quiet c ≡ true → unmounts (c ∷ t) ≡ unmounts t
unmounts-quiet (unmount p) t h = cc
unmounts-quiet (unmount_mount_point i) t h = cc
unmounts-quiet (cleanup_mount_point p) t h = cc
unmounts-quiet (cleanup_mount_with_force p n) t h = cc
unmounts-quiet _ t h = refl

-- Of the counts and the config, what a property may speak of without being disturbed by a quiet call.
pub live-Calm {ℓ} : (Q : Bool → Type ℓ) (n : Text) → Calm (λ s. Q (live s.trace n))
live-Calm Q n = record {
  quiet = λ c q. record { after = λ s h. subst Q (sym (live-quiet c s.trace n q)) h };
}

pub mounts-Calm {ℓ} : (Q : ℕ → Type ℓ) → Calm (λ s. Q (mounts s.trace))
mounts-Calm Q = record {
  quiet = λ c q. record { after = λ s h. subst Q (sym (mounts-quiet c s.trace q)) h };
}

pub unmounts-Calm {ℓ} : (Q : ℕ → Type ℓ) → Calm (λ s. Q (unmounts s.trace))
unmounts-Calm Q = record {
  quiet = λ c q. record { after = λ s h. subst Q (sym (unmounts-quiet c s.trace q)) h };
}

pub mounted-Calm {ℓ} : (Q : List (Text × Text) → Type ℓ) → Calm (λ s. Q (mounted s.trace))
mounted-Calm Q = record {
  quiet = λ c q. record { after = λ s h. subst Q (sym (mounted-quiet c s.trace q)) h };
}

pub unmounted-Calm {ℓ} : (Q : List ℕ → Type ℓ) → Calm (λ s. Q (unmounted s.trace))
unmounted-Calm Q = record {
  quiet = λ c q. record { after = λ s h. subst Q (sym (unmounted-quiet c s.trace q)) h };
}

pub cleaned-Calm {ℓ} : (Q : List Text → Type ℓ) → Calm (λ s. Q (cleaned s.trace))
cleaned-Calm Q = record {
  quiet = λ c q. record { after = λ s h. subst Q (sym (cleaned-quiet c s.trace q)) h };
}

-- The locks and the contexts are no part of a trace.
pub locks-Calm {ℓ} : (Q : VolumeLocks → Type ℓ) → Calm (λ s. Q s.volume_locks)
locks-Calm Q = record { quiet = λ c q. record { after = λ s h. h } }

pub contexts-Calm {ℓ} : (Q : GoMap MountContext → Type ℓ) → Calm (λ s. Q s.mount_context)
contexts-Calm Q = record { quiet = λ c q. record { after = λ s h. h } }

-- The calls that write to rclone's config.
abbrev pub is_config : Call → Bool
is_config (set_value section k v) = true
is_config (update_remote section p) = true
is_config (delete_section section) = true
is_config _ = false

pub mounts-config : (c : Call) → is_config c ≡ true → (t : Trace) → mounts (c ∷ t) ≡ mounts t
mounts-config (set_value section k v) h t = refl
mounts-config (update_remote section p) h t = refl
mounts-config (delete_section section) h t = refl
mounts-config _ h t = absurd (cc)

pub mounted-config : (c : Call) → is_config c ≡ true → (t : Trace) → mounted (c ∷ t) ≡ mounted t
mounted-config (set_value section k v) h t = refl
mounted-config (update_remote section p) h t = refl
mounted-config (delete_section section) h t = refl
mounted-config _ h t = absurd (cc)

pub unmounted-config :
    (c : Call) → is_config c ≡ true → (t : Trace) → unmounted (c ∷ t) ≡ unmounted t
unmounted-config (set_value section k v) h t = refl
unmounted-config (update_remote section p) h t = refl
unmounted-config (delete_section section) h t = refl
unmounted-config _ h t = absurd (cc)

pub cleaned-config : (c : Call) → is_config c ≡ true → (t : Trace) → cleaned (c ∷ t) ≡ cleaned t
cleaned-config (set_value section k v) h t = refl
cleaned-config (update_remote section p) h t = refl
cleaned-config (delete_section section) h t = refl
cleaned-config _ h t = absurd (cc)

pub unmounts-config : (c : Call) → is_config c ≡ true → (t : Trace) → unmounts (c ∷ t) ≡ unmounts t
unmounts-config (set_value section k v) h t = refl
unmounts-config (update_remote section p) h t = refl
unmounts-config (delete_section section) h t = refl
unmounts-config _ h t = absurd (cc)
