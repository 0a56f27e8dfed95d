-- ===== src/Controller/Laws.antt =====
-- What `CreateVolume` and `ValidateVolumeCapabilities` accept, and the volume context that is handed to
-- the node.
use csi_driver_rclone.Prelude.{
  ◌≡◌, ◌≢◌, ◌↔◌, ◌⊎◌, ◌∙◌, ap, arith, ◌++◌, if◌then◌else◌, refl, sym, [], ◌∷◌, List, false, ok, All,
  Bool-cases, inl, inr,
}
use csi_driver_rclone.Text.{Text, codes, text_eq, is_empty, to_lower, to_lower_rune, trim_space}
use csi_driver_rclone.GoMap.{Params, get, put_all, IsMap}
use csi_driver_rclone.GoMap.Laws.{get-put, get-put_all}
use csi_driver_rclone.Params.Merge.{or_else-none}
use csi_driver_rclone.Text.Eq.{text_eq_ne, text_eq_refl}
use csi_driver_rclone.Csi.{VolumeCapability, block, mount, unset}
use csi_driver_rclone.Params.{param_remote, param_remote_path}
use csi_driver_rclone.Controller.{
  check_no_block, is_valid_volume_capabilities, create_volume, CreateVolumeRequest, Volume,
  create_volume_context, create_volume_id, read_parameters, read_parameter, read_init, Read,
}

-- Some capability, and none for a block device.
abbrev pub Supported : List VolumeCapability → Type 0
Supported vol_caps = (vol_caps ≢ []) × All (λ c. c ≢ block) vol_caps

check_no_block-All :
    (vol_caps : List VolumeCapability)
    → check_no_block vol_caps ≡ ok tt
    → All (λ c. c ≢ block) vol_caps
unfolding check_no_block
check_no_block-All [] h = tt
check_no_block-All (block ∷ cs) h = absurd (cc)
check_no_block-All (mount m ∷ cs) h = (λ e. cc, check_no_block-All cs h)
check_no_block-All (unset ∷ cs) h = (λ e. cc, check_no_block-All cs h)

All-check_no_block :
    (vol_caps : List VolumeCapability)
    → All (λ c. c ≢ block) vol_caps
    → check_no_block vol_caps ≡ ok tt
unfolding check_no_block
All-check_no_block [] h = refl
All-check_no_block (block ∷ cs) (h, hs) = absurd (h refl)
All-check_no_block (mount m ∷ cs) (h, hs) = All-check_no_block cs hs
All-check_no_block (unset ∷ cs) (h, hs) = All-check_no_block cs hs

-- A list of capabilities is valid exactly when it is not empty and has no block capability.
pub is_valid_volume_capabilities_iff :
    (vol_caps : List VolumeCapability)
    → (is_valid_volume_capabilities vol_caps ≡ ok tt) ↔ Supported vol_caps
unfolding is_valid_volume_capabilities
is_valid_volume_capabilities_iff [] = (λ h. absurd (cc), λ h. absurd (h.0 refl))
is_valid_volume_capabilities_iff (c ∷ cs) =
    (λ h. (λ e. cc, check_no_block-All (c ∷ cs) h), λ h. All-check_no_block (c ∷ cs) h.1)

get-create_volume_context :
    (parameters : Params) (remote_path k : Text)
    → IsMap parameters
    → k ≢ param_remote_path
    → get (create_volume_context parameters remote_path) k ≡ get parameters k
unfolding create_volume_context get
get-create_volume_context parameters remote_path k h ne = elim (Bool-cases (is_empty remote_path)) [
  | inl e ↦ rw (e, get-put_all [] parameters k h) (or_else-none (get parameters k))
  | inr e ↦
      rw
        (
          e,
          get-put (put_all [] parameters) param_remote_path remote_path k,
          text_eq_ne param_remote_path k (λ q. ne (sym q)),
          get-put_all [] parameters k h,
        )
        (or_else-none (get parameters k))
]

is_empty-named : (name : Text) → name ≢ [] → is_empty name ≡ false
is_empty-named [] h = absurd (h refl)
is_empty-named (c ∷ name) h = refl

-- The key of a parameter that names the remote.
abbrev pub NamesRemote : Text × Text → Type 0
NamesRemote e = to_lower (trim_space e.0) ≡ codes "remote"

-- The remote that parameters name: the value of the last that names one, without the space around it.
abbrev pub IsRemote : Params → Text → Type 0
IsRemote parameters remote =
    (All (λ e. ¬ NamesRemote e) parameters × (remote ≡ []))
    ⊎ ((before : Params) × (after : Params) × (k : Text) × (v : Text) × (parameters
          ≡ before ++ (k, v) ∷ after)
        × NamesRemote (k, v)
        × All (λ e. ¬ NamesRemote e) after
        × (remote ≡ trim_space v))

read_parameters-append :
    (r : Read) (m n : Params) → read_parameters r (m ++ n) ≡ read_parameters (read_parameters r m) n
unfolding read_parameters
read_parameters-append r [] n = refl
read_parameters-append r ((k, v) ∷ m) n = read_parameters-append (read_parameter r k v) m n

lowered : to_lower param_remote ≡ codes "remote"
unfolding to_lower to_lower_rune
lowered = refl

read_parameter-named :
    (r : Read) (k v : Text) → NamesRemote (k, v) → (read_parameter r k v).remote ≡ trim_space v
unfolding read_parameter
read_parameter-named r k v e = rw (e, lowered, text_eq_refl (codes "remote")) refl

read_parameter-other :
    (r : Read) (k v : Text) → ¬ NamesRemote (k, v) → (read_parameter r k v).remote ≡ r.remote
unfolding read_parameter
read_parameter-other r k v ne =
    let e : text_eq (to_lower (trim_space k)) (to_lower param_remote) ≡ false =
      text_eq_ne (to_lower (trim_space k)) (to_lower param_remote) (λ q. ne (q ∙ lowered)) in
    rw e (ground arith)

read_parameters-others :
    (r : Read) (m : Params) → All (λ e. ¬ NamesRemote e) m → (read_parameters r m).remote ≡ r.remote
unfolding read_parameters
read_parameters-others r [] h = refl
read_parameters-others r ((k, v) ∷ m) (h, hs) =
    read_parameters-others (read_parameter r k v) m hs ∙ read_parameter-other r k v h

read_parameters-IsRemote :
    (parameters : Params) (remote : Text)
    → IsRemote parameters remote
    → (read_parameters read_init parameters).remote ≡ remote
unfolding read_parameters
read_parameters-IsRemote parameters remote (inl (none_named, e)) =
    read_parameters-others read_init parameters none_named ∙ sym e
read_parameters-IsRemote parameters remote (inr (before, after, k, v, whole, named, others, e)) =
    let r = read_parameters read_init before in
    ap (λ m. (read_parameters read_init m).remote) whole
    ∙ (ap (λ x. x.remote) (read_parameters-append read_init before ((k, v) ∷ after))
        ∙ (read_parameters-others (read_parameter r k v) after others
            ∙ (read_parameter-named r k v named ∙ sym e)))

create_volume_id_lem :
    (remote name : Text)
    → create_volume_id remote name
      ≡ (if is_empty remote then name else remote ++ (codes "#" ++ name))
unfolding create_volume_id
create_volume_id_lem remote name = ground arith

-- A request with a name and supported capabilities, whose parameters have no key twice, gets a
-- volume: its ID is the name, after the remote and `#` where the parameters name a remote that is not
-- empty, the last by a key that is `remote` up to case and the space around it; its context has every
-- parameter but `remotePath` as the request has it.
pub create_volume_lem :
    (order : Params → Params) (req : CreateVolumeRequest) (remote : Text)
    → req.name ≢ []
    → Supported req.volume_capabilities
    → IsMap req.parameters
    → IsRemote req.parameters remote
    → (volume : Volume) × (create_volume order req ≡ ok volume)
      × (volume.volume_id
          ≡ (if is_empty remote then req.name else remote ++ (codes "#" ++ req.name)))
      × ((k : Text) → k ≢ param_remote_path → get volume.volume_context k ≡ get req.parameters k)
unfolding create_volume
create_volume_lem order req remote named caps m r =
    rw
      (
        is_empty-named req.name named,
        (is_valid_volume_capabilities_iff req.volume_capabilities).1 caps,
      )
      (_, refl, volume_id, λ k ne. get-create_volume_context req.parameters _ k m ne)
  where
    volume_id :
        create_volume_id (read_parameters read_init req.parameters).remote req.name
        ≡ (if is_empty remote then req.name else remote ++ (codes "#" ++ req.name))
    volume_id =
        ap (λ x. create_volume_id x req.name) (read_parameters-IsRemote req.parameters remote r)
        ∙ create_volume_id_lem remote req.name
