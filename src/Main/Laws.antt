-- ===== src/Main/Laws.antt =====
-- With which options the driver's server comes to run.
use csi_driver_rclone.Prelude.{
  ◌≡◌, refl, ◌⊎◌, inl, inr, arith, Bool, true, false, not, ◌||◌, Option, none, some, List, [], ◌∷◌,
  ◌++◌, Result, ok, err, if◌then◌else◌, any, sym, ◌∙◌, false≢true,
}
use csi_driver_rclone.Text.{Text, codes, is_empty}
use csi_driver_rclone.MetricsServer.{
  MetricsOptions, start_metrics, IsServable, start_metrics-IsServable,
}
use csi_driver_rclone.Rc
use csi_driver_rclone.Rc.{IsGuarded, start-IsGuarded, start-none}
use csi_driver_rclone.Process.{P, ◌>>=◌, done, emit, or_fatal}
use csi_driver_rclone.Main.{
  Event, grpc_server_started, metrics_server_started, Flags, World, run_metrics_server,
  run_rc_server, rc_started, main,
}

abbrev is_grpc_start : Event → Bool
is_grpc_start (grpc_server_started endpoint) = true
is_grpc_start _ = false

-- Was the gRPC server started?
abbrev pub serves_grpc : List Event → Bool
serves_grpc l = any is_grpc_start l

any-append : (l m : List Event) → serves_grpc (l ++ m) ≡ serves_grpc l || serves_grpc m
any-append [] m = refl
any-append (e ∷ l) m = ground (arith, any-append l m)

-- What follows a part that starts no gRPC server runs only where that part returns.
after :
    {A B : Type 0} (m : P Event A) (f : A → P Event B)
    → serves_grpc m.1 ≡ false
    → serves_grpc (m >>= f).1 ≡ true
    → (a : A) × (m.0 ≡ ok a) × (serves_grpc (f a).1 ≡ true)
after (ok a, l) f quiet h = (a, refl, ground (arith, any-append l (f a).1))
after (err e, l) f quiet h = absurd (ground arith)

fatal-quiet :
    {A : Type 0} (say : Text → Text) (r : Result Text A)
    → serves_grpc (or_fatal {Event = Event} say r).1 ≡ false
fatal-quiet say (ok a) = refl
fatal-quiet say (err e) = refl

fatal-ok :
    {A : Type 0} (say : Text → Text) (r : Result Text A) {a : A}
    → (or_fatal {Event = Event} say r).0 ≡ ok a
    → r ≡ ok a
fatal-ok say (ok b) e = e
fatal-ok say (err x) e = absurd (cc)

quiet_then :
    {A B : Type 0} (m : P Event A) (f : A → P Event B)
    → serves_grpc m.1 ≡ false
    → ((a : A) → serves_grpc (f a).1 ≡ false)
    → serves_grpc (m >>= f).1 ≡ false
quiet_then (ok a, l) f h k = ground (arith, any-append l (f a).1, k a)
quiet_then (err e, l) f h k = h

ok_first :
    {A B : Type 0} (m : P Event A) (f : A → P Event B) {b : B}
    → (m >>= f).0 ≡ ok b
    → (a : A) × (m.0 ≡ ok a)
ok_first (ok a, l) f e = (a, refl)
ok_first (err x, l) f e = absurd (cc)

if_quiet :
    {A : Type 0} (b : Bool) (m n : P Event A)
    → serves_grpc m.1 ≡ false
    → serves_grpc n.1 ≡ false
    → serves_grpc (if b then m else n).1 ≡ false
if_quiet true m n hm hn = hm
if_quiet false m n hm hn = hn

if_ok :
    {A : Type 0} (b : Bool) (m n : P Event A) {a : A}
    → (if b then m else n).0 ≡ ok a
    → ((b ≡ true) × (m.0 ≡ ok a)) ⊎ (b ≡ false)
if_ok true m n e = inl (refl, e)
if_ok false m n e = inr refl

module _ (w : World) where
  metrics_steps : MetricsOptions → P Event Unit
  metrics_steps opts = do
    server ←
        or_fatal (λ e. codes "Failed to start metrics server: " ++ e)
          (start_metrics w.quote w.listen (some opts))
    emit (metrics_server_started server)

  metrics-quiet : (opts : MetricsOptions) → serves_grpc (run_metrics_server w opts).1 ≡ false
  unfolding run_metrics_server metrics_steps
  metrics-quiet opts =
      if_quiet (not (is_empty opts.metrics_addr)) (metrics_steps opts) (done tt)
        (quiet_then
          (or_fatal (λ e. codes "Failed to start metrics server: " ++ e)
            (start_metrics w.quote w.listen (some opts)))
          (λ server. emit (metrics_server_started server))
          (fatal-quiet _ (start_metrics w.quote w.listen (some opts))) (λ server. refl))
        refl

  -- Off, or with options that are accepted.
  metrics_sound :
      (opts : MetricsOptions)
      → (run_metrics_server w opts).0 ≡ ok tt
      → (is_empty opts.metrics_addr ≡ true) ⊎ IsServable opts
  unfolding run_metrics_server metrics_steps
  metrics_sound opts e =
      elim (if_ok (not (is_empty opts.metrics_addr)) (metrics_steps opts) (done tt) e) [
        | inl (on, r) ↦
            let (server, q) =
              ok_first
                (or_fatal (λ e. codes "Failed to start metrics server: " ++ e)
                  (start_metrics w.quote w.listen (some opts)))
                (λ server. emit (metrics_server_started server)) r in
            inr (
              start_metrics-IsServable w.quote w.listen opts
                (fatal-ok _ (start_metrics w.quote w.listen (some opts)) q))
        | inr off ↦ inl (ground arith)
      ]

  rc_say : Text → Text
  rc_say e = codes "Failed to start RC server: " ++ e

  rc_steps : Rc.Options → P Event Unit
  unfolding rc_say
  rc_steps opts = do
    server ← or_fatal rc_say (Rc.start w.rc_defaults w.rcserver_start (some opts))
    rc_started server

  started-quiet : (o : Option (Unit {0})) → serves_grpc (rc_started o).1 ≡ false
  started-quiet none = refl
  started-quiet (some s) = refl

  rc-quiet : (opts : Rc.Options) → serves_grpc (run_rc_server w opts).1 ≡ false
  unfolding run_rc_server rc_steps
  rc-quiet opts =
      if_quiet opts.enabled (rc_steps opts) (done tt)
        (quiet_then (or_fatal rc_say (Rc.start w.rc_defaults w.rcserver_start (some opts)))
          (λ server. rc_started server)
          (fatal-quiet _ (Rc.start w.rc_defaults w.rcserver_start (some opts))) started-quiet)
        refl

  -- Off, or started with options that guard it.
  rc_sound :
      (opts : Rc.Options)
      → (run_rc_server w opts).0 ≡ ok tt
      → (opts.enabled ≡ false) ⊎ ((r : Rc.RcOptions) × (w.rcserver_start r ≡ ok tt) × IsGuarded r)
  unfolding run_rc_server rc_steps
  rc_sound opts e = elim (if_ok opts.enabled (rc_steps opts) (done tt) e) [
    | inl (on, r) ↦
        let (server, q) =
          ok_first (or_fatal rc_say (Rc.start w.rc_defaults w.rcserver_start (some opts)))
            (λ server. rc_started server) r in
        inr (
          server_sound server (fatal-ok _ (Rc.start w.rc_defaults w.rcserver_start (some opts)) q)
            on)
    | inr off ↦ inl off
  ]
    where
      server_sound :
          (server : Option (Unit {0}))
          → Rc.start w.rc_defaults w.rcserver_start (some opts) ≡ ok server
          → opts.enabled ≡ true
          → (r : Rc.RcOptions) × (w.rcserver_start r ≡ ok tt) × IsGuarded r
      server_sound (some tt) e on = start-IsGuarded w.rc_defaults w.rcserver_start (some opts) e
      server_sound none e on =
          absurd (false≢true (sym (start-none w.rc_defaults w.rcserver_start opts e) ∙ on))

-- The driver's server comes to be started only where the metrics server is off or has options that
-- are accepted, and the remote control server is off or was started with an address, and with a user
-- and a password unless authentication is off.
pub main_sound :
    (w : World) (flags : Flags)
    → serves_grpc (main w flags).1 ≡ true
    → ((is_empty flags.metrics.metrics_addr ≡ true) ⊎ IsServable flags.metrics)
      × ((flags.rc.enabled ≡ false)
          ⊎ ((r : Rc.RcOptions) × (w.rcserver_start r ≡ ok tt) × IsGuarded r))
unfolding main
main_sound w flags h =
    let (a, m, h1) =
      after (run_metrics_server w flags.metrics) _ (metrics-quiet w flags.metrics) h in
    let (b, r, h2) = after (run_rc_server w flags.rc) _ (rc-quiet w flags.rc) h1 in
    (metrics_sound w flags.metrics m, rc_sound w flags.rc r)
