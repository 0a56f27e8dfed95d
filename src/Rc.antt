-- ===== src/Rc.antt =====
-- The options of rclone's remote control server (internal/rc/server.go).
use csi_driver_rclone.Prelude.{
  ◌≡◌, refl, Bool, true, false, ◌||◌, ◌&&◌, not, Option, none, some, List, [], ◌∷◌, Result, ok, err,
  ◌>>=◌, ◌>>◌, if◌then◌else◌, ◌⊎◌, inl, inr, Bool-cases,
}
use csi_driver_rclone.Text.{Text, codes, is_empty}

pub record Options : Type 0 where
  pub enabled : Bool
  pub address : Text
  pub no_auth : Bool
  pub username : Text
  pub password : Text

unfoldable pub validate : Option Options → Result Text (Unit {0})
validate none = err (codes "options cannot be nil")
validate (some o) =
    if is_empty o.address
    then err (codes "address cannot be empty")
    else if o.no_auth && (not (is_empty o.username) || not (is_empty o.password))
    then err (codes "basic auth credentials must be provided unless rc.noAuth=true")
    else if not o.no_auth && (is_empty o.username || is_empty o.password)
    then err (codes "rc basic auth credentials must be provided unless rc.noAuth=true")
    else ok tt

abbrev pub new_options : Options
new_options = record {
  enabled = false;
  address = codes ":5573";
  no_auth = false;
  username = [];
  password = [];
}

-- The fields of rclone's own options that `Start` sets.
pub record RcOptions : Type 0 where
  pub enabled : Bool
  pub no_auth : Bool
  pub listen_addrs : List Text
  pub basic_user : Text
  pub basic_pass : Text

-- rclone's options as `Start` passes them on; `defaults` is `rc.Opt`.
unfoldable pub rc_options : RcOptions → Options → RcOptions
rc_options defaults o = record {
  enabled = true;
  no_auth = o.no_auth;
  listen_addrs = if not (is_empty o.address) then o.address ∷ [] else defaults.listen_addrs;
  basic_user = if not o.no_auth then o.username else defaults.basic_user;
  basic_pass = if not o.no_auth then o.password else defaults.basic_pass;
}

-- `none` is the nil server of a disabled configuration; `rcserver_start` is rclone's.
unfoldable pub start :
    {S : Type 0} → RcOptions → (RcOptions → Result Text S) → Option Options → Result Text (Option S)
unfolding validate rc_options
start defaults rcserver_start none = ok none
start defaults rcserver_start (some o) =
    if not o.enabled
    then ok none
    else (do validate (some o); server ← rcserver_start (rc_options defaults o); ok (some server))

-- Safe to serve: one address that is not empty, and a user and a password unless authentication is off.
abbrev pub IsGuarded : RcOptions → Type 0
IsGuarded r =
    ((a : Text) × (r.listen_addrs ≡ a ∷ []) × (is_empty a ≡ false))
    × ((r.no_auth ≡ true) ⊎ ((is_empty r.basic_user ≡ false) × (is_empty r.basic_pass ≡ false)))

valid_facts :
    (a n u p : Bool) (e1 e2 e3 : Text)
    → ◌≡◌ {A = Result Text (Unit {0})}
        (if a
          then err e1
          else if n && (not u || not p)
          then err e2
          else if not n && (u || p)
          then err e3
          else ok tt)
        (ok tt)
    → (a ≡ false) × ((n ≡ true) ⊎ ((n ≡ false) × (u ≡ false) × (p ≡ false)))
valid_facts true n u p e1 e2 e3 e = absurd (cc)
valid_facts false true u p e1 e2 e3 e = (refl, inl refl)
valid_facts false false false false e1 e2 e3 e = (refl, inr (refl, refl, refl))
valid_facts false false true p e1 e2 e3 e = absurd (cc)
valid_facts false false false true e1 e2 e3 e = absurd (cc)

-- Options that are valid give rclone options that are safe to serve.
validate-IsGuarded :
    (defaults : RcOptions) (o : Options)
    → validate (some o) ≡ ok tt
    → IsGuarded (rc_options defaults o)
unfolding validate rc_options
validate-IsGuarded defaults o e =
    let (a, rest) =
      valid_facts (is_empty o.address) o.no_auth (is_empty o.username) (is_empty o.password) _ _ _
        e in
    rw a ((o.address, refl, a), guard rest)
  where
    guard :
        (o.no_auth ≡ true)
          ⊎ ((o.no_auth ≡ false) × (is_empty o.username ≡ false) × (is_empty o.password ≡ false))
        → (o.no_auth ≡ true)
          ⊎ ((is_empty (if not o.no_auth then o.username else defaults.basic_user) ≡ false)
              × (is_empty (if not o.no_auth then o.password else defaults.basic_pass) ≡ false))
    guard (inl n) = inl n
    guard (inr (n, u, p)) = inr (rw n (u, p))

start-valid :
    {S : Type 0} (v : Result Text (Unit {0})) (r : Result Text S) {server : S}
    → ◌≡◌ {A = Result Text (Option S)} (v >> (r >>= λ s. ok (some s))) (ok (some server))
    → (v ≡ ok tt) × (r ≡ ok server)
start-valid (ok tt) (ok s) e = (refl, cc)
start-valid (ok tt) (err x) e = absurd (cc)
start-valid (err x) r e = absurd (cc)

-- A server that is started was started with one address, and with a user and a password
-- unless authentication is off.
pub start-IsGuarded :
    {S : Type 0} (defaults : RcOptions) (rcserver_start : RcOptions → Result Text S)
    (opts : Option Options) {server : S}
    → start defaults rcserver_start opts ≡ ok (some server)
    → (r : RcOptions) × (rcserver_start r ≡ ok server) × IsGuarded r
unfolding start
start-IsGuarded defaults rcserver_start none e = absurd (cc)
start-IsGuarded defaults rcserver_start (some o) e = elim (Bool-cases o.enabled) [
  | inl on ↦
      let (valid, started) =
        start-valid (validate (some o)) (rcserver_start (rc_options defaults o)) (cc) in
      (rc_options defaults o, started, validate-IsGuarded defaults o valid)
  | inr off ↦ absurd (cc)
]

never_none :
    {S : Type 0} (v : Result Text (Unit {0})) (r : Result Text S)
    → ◌≡◌ {A = Result Text (Option S)} (v >> (r >>= λ s. ok (some s))) (ok none)
    → ⊥
never_none (ok tt) (ok s) e = cc
never_none (ok tt) (err x) e = cc
never_none (err x) r e = cc

-- Only a configuration that is disabled gives the nil server.
pub start-none :
    {S : Type 0} (defaults : RcOptions) (rcserver_start : RcOptions → Result Text S) (o : Options)
    → start defaults rcserver_start (some o) ≡ ok none
    → o.enabled ≡ false
unfolding start
start-none defaults rcserver_start o e = elim (Bool-cases o.enabled) [
  | inl on ↦ absurd (never_none (validate (some o)) (rcserver_start (rc_options defaults o)) (cc))
  | inr off ↦ off
]
