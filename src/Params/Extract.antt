-- ===== src/Params/Extract.antt =====
-- What `extractPublishParams` accepts, and what it hands on.
use csi_driver_rclone.Prelude.{
  ◌≡◌, ◌≢◌, refl, arith, [], ◌∷◌, Option, none, some, true, false, Result, ok, err, ◌⊎◌, inl, inr,
  All, Bool-cases, if◌then◌else◌, Holds, Holds-ok, Holds-map, not, ◌&&◌, ◌∙◌, ◌>>=◌,
}
use csi_driver_rclone.Text.{Text, text_eq, is_empty}
use csi_driver_rclone.GoMap.{Params, get, put, value, or_else}
use csi_driver_rclone.GoMap.Laws.{get-put}
use csi_driver_rclone.Flags.{normalize_rclone_flag}
use csi_driver_rclone.Flags.Laws.{IsFlagRune, normalize-IsFlag}
use csi_driver_rclone.Params.{
  PublishVolumeParams, param_remote, param_remote_path, param_config_data, param_backend_type,
  reserved_params, copy_params, extract_publish_params,
}

-- A key that rclone can take: not empty, in lower case, with no hyphen.
abbrev pub IsFlag : Text → Type 0
IsFlag k = (k ≢ []) × All IsFlagRune k

abbrev pub KeyIsFlag : Text × Text → Type 0
KeyIsFlag (k, v) = IsFlag k

All-put : (m : Params) (k v : Text) → All KeyIsFlag m → IsFlag k → All KeyIsFlag (put m k v)
unfolding put
All-put [] k v h hk = (hk, tt)
All-put ((j, w) ∷ m) k v (hj, h) hk = elim (Bool-cases (text_eq j k)) [
  | inl e ↦ rw e (hk, h)
  | inr e ↦ rw e (hj, All-put m k v h hk)
]

ne_nil : (k : Text) → is_empty k ≡ false → k ≢ []
ne_nil [] h e = cc
ne_nil (c ∷ k) h e = cc

-- The value that an entry hands on under the flag `f`, if any.
abbrev offered : Text → Text → Text → Option Text
offered k v f =
    if not (reserved_params k) && text_eq (normalize_rclone_flag k) f then some v else none

-- The value under the flag `f` after the whole map: the last one that is offered in the order of
-- iteration.
pub last_offered : Params → Text → Option Text
last_offered [] f = none
last_offered ((k, v) ∷ params) f = or_else (last_offered params f) (offered k v f)

abbrev Copied : Params → Params → Params → Type 0
Copied params copied res =
    All KeyIsFlag res × ((f : Text) → get res f ≡ or_else (last_offered params f) (get copied f))

Copied-step :
    (k v : Text) (params copied res : Params)
    → reserved_params k ≡ false
    → Copied params (put copied (normalize_rclone_flag k) v) res
    → Copied ((k, v) ∷ params) copied res
unfolding last_offered
Copied-step k v params copied res r (flags, g) =
    (flags, λ f. ground (arith, g f, get-put copied (normalize_rclone_flag k) v f))

skipped_step :
    (k v : Text) (params copied res : Params)
    → reserved_params k ≡ true
    → Copied params copied res
    → Copied ((k, v) ∷ params) copied res
unfolding last_offered
skipped_step k v params copied res r (flags, g) = (flags, λ f. ground (arith, g f))

copy_params-Copied :
    (params copied : Params)
    → All KeyIsFlag copied
    → Holds (Copied params copied) (copy_params params copied)
unfolding copy_params last_offered
copy_params-Copied [] copied c = (c, λ f. refl)
copy_params-Copied ((k, v) ∷ params) copied c = elim (Bool-cases (reserved_params k)) [
  | inl r ↦
      rw (r, copy_params)
        (Holds-map _ _ (copy_params params copied) (λ res. skipped_step k v params copied res r)
          (copy_params-Copied params copied c))
  | inr r ↦ elim (Bool-cases (is_empty (normalize_rclone_flag k))) [
    | inl e ↦ rw (r, e, copy_params) tt
    | inr e ↦
        rw (r, e, copy_params)
          (Holds-map _ _ (copy_params params (put copied (normalize_rclone_flag k) v))
            (λ res. Copied-step k v params copied res r)
            (copy_params-Copied params (put copied (normalize_rclone_flag k) v)
              (All-put copied _ v c (ne_nil _ e, normalize-IsFlag k))))
  ]
]

-- What a successful extraction returns.
pub record IsExtracted (params : Params) (pvp : PublishVolumeParams) : Type 0 where
  pub name : pvp.remote_name ≡ value params param_remote
  pub path : pvp.remote_path ≡ value params param_remote_path
  pub config : pvp.config_data ≡ value params param_config_data
  pub backend : pvp.remote_type ≡ value params param_backend_type
  pub named : pvp.remote_name ≢ []
  pub flags : All KeyIsFlag pvp.params
  pub kept : (f : Text) → get pvp.params f ≡ last_offered params f

or_else-none : (o : Option Text) → or_else o none ≡ o
or_else-none none = refl
or_else-none (some v) = refl

abbrev with_params : Params → Params → PublishVolumeParams
with_params params copied = record {
  remote_name = value params param_remote;
  remote_path = value params param_remote_path;
  config_data = value params param_config_data;
  remote_type = value params param_backend_type;
  params = copied;
}

IsExtracted-Copied :
    (params copied : Params)
    → is_empty (value params param_remote) ≡ false
    → Copied params [] copied
    → IsExtracted params (with_params params copied)
IsExtracted-Copied params copied named (flags, g) = record {
  name = refl;
  path = refl;
  config = refl;
  backend = refl;
  named = ne_nil _ named;
  flags = flags;
  kept = λ f. g f ∙ (unfold get in or_else-none (last_offered params f));
}

Holds-bind-ok {ℓ κ μ} :
    {E : Type ℓ} {A B : Type κ} (P : A → Type μ) (Q : B → Type μ) (r : Result E A) (g : A → B)
    → ((a : A) → P a → Q (g a))
    → Holds P r
    → Holds Q (r >>= λ a. ok (g a))
Holds-bind-ok P Q (ok a) g f h = f a h
Holds-bind-ok P Q (err e) g f h = tt

extract-Holds : (params : Params) → Holds (IsExtracted params) (extract_publish_params params)
extract-Holds params = elim (Bool-cases (is_empty (value params param_remote))) [
  | inl e ↦ unfold extract_publish_params in rw e tt
  | inr e ↦
      elim (Bool-cases
        (is_empty (value params param_config_data) && is_empty (value params param_backend_type))) [
          | inl d ↦ unfold extract_publish_params in rw (e, d) tt
          | inr d ↦
              unfold extract_publish_params in
              rw (e, d)
                (Holds-bind-ok (Copied params []) (IsExtracted params) (copy_params params []) _
                  (λ copied. IsExtracted-Copied params copied e) (copy_params-Copied params [] tt))
        ]
]

pub extract_sound :
    (params : Params) {pvp : PublishVolumeParams}
    → extract_publish_params params ≡ ok pvp
    → IsExtracted params pvp
extract_sound params e = Holds-ok (IsExtracted params) e (extract-Holds params)

-- A key that is reserved, or that names some flag.
abbrev pub Acceptable : Text × Text → Type 0
Acceptable (k, v) = (reserved_params k ≡ true) ⊎ (is_empty (normalize_rclone_flag k) ≡ false)

copy_params_total :
    (params copied : Params)
    → All Acceptable params
    → (res : Params) × (copy_params params copied ≡ ok res)
unfolding copy_params
copy_params_total [] copied h = (copied, refl)
copy_params_total ((k, v) ∷ params) copied (h, hs) = elim (Bool-cases (reserved_params k)) [
  | inl r ↦ rw (r, copy_params) (copy_params_total params copied hs)
  | inr r ↦
      let e : is_empty (normalize_rclone_flag k) ≡ false = ground arith in
      rw (r, e, copy_params) (copy_params_total params (put copied (normalize_rclone_flag k) v) hs)
]

is_empty-ne_nil : (k : Text) → k ≢ [] → is_empty k ≡ false
is_empty-ne_nil [] h = absurd (h refl)
is_empty-ne_nil (c ∷ k) h = refl

no_source : (k j : Text) → (k ≢ []) ⊎ (j ≢ []) → is_empty k && is_empty j ≡ false
no_source (c ∷ k) j h = refl
no_source [] (c ∷ j) h = refl
no_source [] [] (inl h) = absurd (h refl)
no_source [] [] (inr h) = absurd (h refl)

-- Parameters with a remote, with a config or a remote type, and with no key that normalises to the
-- empty flag are accepted.
pub extract_complete :
    (params : Params)
    → value params param_remote ≢ []
    → (value params param_config_data ≢ []) ⊎ (value params param_backend_type ≢ [])
    → All Acceptable params
    → (pvp : PublishVolumeParams) × (extract_publish_params params ≡ ok pvp)
extract_complete params named source h =
    let (copied, e) = copy_params_total params [] h in
    let a : is_empty (value params param_remote) ≡ false = is_empty-ne_nil _ named in
    let b : is_empty (value params param_config_data) && is_empty (value params param_backend_type)
        ≡ false =
      no_source _ _ source in
    (with_params params copied, unfold extract_publish_params in rw (a, b, e))
