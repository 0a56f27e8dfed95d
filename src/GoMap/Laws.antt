-- ===== src/GoMap/Laws.antt =====
-- Reading after writing, deleting and copying.
use csi_driver_rclone.Prelude.{◌≡◌, refl, none, some, [], ◌∷◌, arith, if◌then◌else◌}
use csi_driver_rclone.Text.{Text, text_eq}
use csi_driver_rclone.Text.Eq.{text_eq_iff, text_eq_refl}
use csi_driver_rclone.GoMap.{GoMap, get, put, delete, put_all, IsMap, or_else}

module _ {ℓ} {V : Type ℓ} where
  pub get-put :
      (m : GoMap V) (k : Text) (v : V) (j : Text)
      → get (put m k v) j ≡ (if text_eq k j then some v else get m j)
  unfolding get put
  get-put [] k v j = refl
  get-put ((i, w) ∷ m) k v j =
      ground (arith, text_eq_iff k j, text_eq_iff i k, text_eq_iff i j, get-put m k v j)

  pub get-put_self : (m : GoMap V) (k : Text) (v : V) → get (put m k v) k ≡ some v
  get-put_self m k v = rw (get-put, text_eq_refl)

  pub get-delete :
      (m : GoMap V) (k j : Text) → get (delete m k) j ≡ (if text_eq k j then none else get m j)
  unfolding get delete
  get-delete [] k j = ground arith
  get-delete ((i, w) ∷ m) k j =
      ground (arith, text_eq_iff k j, text_eq_iff i k, text_eq_iff i j, get-delete m k j)

  -- A copy into `m` overrides its entries, in whatever order it is made.
  pub get-put_all :
      (m from : GoMap V) (j : Text)
      → IsMap from
      → get (put_all m from) j ≡ or_else (get from j) (get m j)
  unfolding get put_all
  get-put_all m [] j h = refl
  get-put_all m ((k, v) ∷ from) j (fresh, h) =
      ground (arith, get-put_all (put m k v) from j h, get-put m k v j, text_eq_iff k j)

  pub put-IsMap : (m : GoMap V) (k : Text) (v : V) → IsMap m → IsMap (put m k v)
  unfolding put get
  put-IsMap [] k v h = (refl, tt)
  put-IsMap ((j, w) ∷ m) k v (fresh, h) =
      ground (arith, put-IsMap m k v h, get-put m k v j, text_eq_iff j k, text_eq_iff k j)

  pub put_all-IsMap : (m from : GoMap V) → IsMap m → IsMap (put_all m from)
  unfolding put_all
  put_all-IsMap m [] h = h
  put_all-IsMap m ((k, v) ∷ from) h = put_all-IsMap (put m k v) from (put-IsMap m k v h)
