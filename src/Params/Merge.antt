-- ===== src/Params/Merge.antt =====
-- What merging two maps of parameters gives, whatever the order of iteration.
use csi_driver_rclone.Prelude.{◌≡◌, refl, [], Option, none, some}
use csi_driver_rclone.Text.{Text}
use csi_driver_rclone.GoMap.{GoMap, Params, get, put_all, IsMap, or_else}
use csi_driver_rclone.GoMap.Laws.{get-put_all}
use csi_driver_rclone.Params.{merge_copy, merge_volume_parameters}

pub or_else-none {ℓ} : {V : Type ℓ} (o : Option V) → or_else o none ≡ o
or_else-none none = refl
or_else-none (some v) = refl

-- The merged map has the value of the second map, where that has the key, else that of the first.
-- The two maps are read in any order of iteration, with no key twice.
pub get-merge_copy {ℓ} :
    {V : Type ℓ} (m1 m2 : GoMap V) (k : Text)
    → IsMap m1
    → IsMap m2
    → get (merge_copy m1 m2) k ≡ or_else (get m2 k) (get m1 k)
unfolding merge_copy get
get-merge_copy m1 m2 k h1 h2 =
    rw (get-put_all (put_all [] m1) m2 k h2, get-put_all [] m1 k h1, or_else-none)

-- The volume context overrides the secrets: a key has the context's value if the context has one,
-- and else the value of the secret, if there is one; neither map has a key twice.
pub get-merge_volume_parameters :
    (secrets volume_context : Params) (k : Text)
    → IsMap secrets
    → IsMap volume_context
    → get (merge_volume_parameters secrets volume_context) k
      ≡ or_else (get volume_context k) (get secrets k)
unfolding merge_volume_parameters
get-merge_volume_parameters = unfold merge_copy in get-merge_copy
