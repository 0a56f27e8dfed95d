-- ===== src/Process.antt =====
-- Code that starts a process up: it does things in order, and may end the process by `klog.Fatal`.
use csi_driver_rclone.Prelude.{List, [], ◌∷◌, ◌++◌, Result, ok, err}
use csi_driver_rclone.Text.{Text}

-- `err` is the text of the fatal error; the list has what was done, in order.
abbrev pub P : Type 0 → Type 0 → Type 0
P Event A = Result Text A × List Event

abbrev pub resume : {Event A B : Type 0} → P Event A → (A → P Event B) → P Event B
resume (ok a, l) f = let (r, l') = f a in (r, l ++ l')
resume (err e, l) f = (err e, l)

infixl 5 ◌>>=◌ ◌>>◌
abbrev pub ◌>>=◌ : {Event A B : Type 0} → P Event A → (A → P Event B) → P Event B
◌>>=◌ m f = resume m f

abbrev pub ◌>>◌ : {Event A B : Type 0} → P Event A → P Event B → P Event B
m >> n = m >>= λ _. n

abbrev pub done : {Event A : Type 0} → A → P Event A
done a = (ok a, [])

abbrev pub emit : {Event : Type 0} → Event → P Event Unit
emit e = (ok tt, e ∷ [])

-- `if err != nil { klog.Fatalf(prefix + "%v", err) }`
abbrev pub or_fatal : {Event A : Type 0} → (Text → Text) → Result Text A → P Event A
or_fatal say (ok a) = (ok a, [])
or_fatal say (err e) = (err (say e), [])
