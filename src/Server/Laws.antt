-- ===== src/Server/Laws.antt =====
-- When the wait group of the gRPC server is counted down.
use csi_driver_rclone.Prelude.{
  ℕ, suc, ◌+◌, ◌≡◌, refl, arith, Bool, true, false, List, [], ◌∷◌, ◌++◌, Result, ok, err,
  if◌then◌else◌, Bool-cases, inl, inr,
}
use csi_driver_rclone.Text.{Text, codes, text_eq}
use csi_driver_rclone.Endpoint.{parse_endpoint}
use csi_driver_rclone.Node.Calls.{PathError}
use csi_driver_rclone.Process.{P, ◌>>=◌, or_fatal, done, emit}
use csi_driver_rclone.Server.{
  Event, remove_socket, listen, wait_group_add, wait_group_done, server_made, serve_calls, Network,
  Services, Service, removed, clear_address, register_if, register_services, stop_in_tests,
  serve_at, serve, start_server,
}

-- The times that the wait group was counted down, and that the server was run.
abbrev pub dones : List Event → ℕ
dones [] = 0
dones (wait_group_done ∷ l) = suc (dones l)
dones (_ ∷ l) = dones l

abbrev pub serves : List Event → ℕ
serves [] = 0
serves (serve_calls ∷ l) = suc (serves l)
serves (_ ∷ l) = serves l

-- The times that it was counted up.
abbrev pub adds : List Event → ℕ
adds [] = 0
adds (wait_group_add ∷ l) = suc (adds l)
adds (_ ∷ l) = adds l

adds-append : (l m : List Event) → adds (l ++ m) ≡ adds l + adds m
adds-append [] m = omega arith
adds-append (wait_group_add ∷ l) m = omega (arith, adds-append l m)
adds-append (_ ∷ l) m = adds-append l m

dones-append : (l m : List Event) → dones (l ++ m) ≡ dones l + dones m
dones-append [] m = omega arith
dones-append (wait_group_done ∷ l) m = omega (arith, dones-append l m)
dones-append (_ ∷ l) m = dones-append l m

serves-append : (l m : List Event) → serves (l ++ m) ≡ serves l + serves m
serves-append [] m = omega arith
serves-append (serve_calls ∷ l) m = omega (arith, serves-append l m)
serves-append (_ ∷ l) m = serves-append l m

-- In test mode one count down for each run of the server, else none; and no count up.
record IsCounted {A : Type 0} (test_mode : Bool) (r : P Event A) : Type 0 where
  counted : dones r.1 ≡ (if test_mode then serves r.1 else 0)
  no_add : adds r.1 ≡ 0

module _ (t : Bool) where
  append_counted :
      (l m : List Event)
      → dones l ≡ (if t then serves l else 0)
      → dones m ≡ (if t then serves m else 0)
      → dones (l ++ m) ≡ (if t then serves (l ++ m) else 0)
  append_counted l m hl hm = ground (arith, dones-append l m, serves-append l m)

  bind-IsCounted :
      {A B : Type 0} (m : P Event A) (f : A → P Event B)
      → IsCounted t m
      → ((a : A) → IsCounted t (f a))
      → IsCounted t (m >>= f)
  bind-IsCounted (ok a, l) f h k = record {
    counted = append_counted l (f a).1 h.counted (k a).counted;
    no_add = omega (arith, adds-append l (f a).1, h.no_add, (k a).no_add);
  }
  bind-IsCounted (err e, l) f h k = record { counted = h.counted; no_add = h.no_add }

  done-IsCounted : {A : Type 0} (a : A) → IsCounted t (done {Event = Event} a)
  done-IsCounted a = record { counted = ground arith; no_add = refl }

  fatal-IsCounted :
      {A : Type 0} (say : Text → Text) (r : Result Text A)
      → IsCounted t (or_fatal {Event = Event} say r)
  fatal-IsCounted say (ok a) = record { counted = ground arith; no_add = refl }
  fatal-IsCounted say (err e) = record { counted = ground arith; no_add = refl }

  remove-IsCounted : (path : Text) → IsCounted t (emit (remove_socket path))
  remove-IsCounted path = record { counted = ground arith; no_add = refl }

  listen-IsCounted : (proto addr : Text) → IsCounted t (emit (listen proto addr))
  listen-IsCounted proto addr = record { counted = ground arith; no_add = refl }

  made-IsCounted : IsCounted t (emit server_made)
  made-IsCounted = record { counted = ground arith; no_add = refl }

  removed-IsCounted : (addr : Text) (r : Result PathError (Unit {0})) → IsCounted t (removed addr r)
  removed-IsCounted addr (ok a) = record { counted = ground arith; no_add = refl }
  removed-IsCounted addr (err e) = elim (Bool-cases e.not_exist) [
    | inl y ↦ rw y (record { counted = ground arith; no_add = refl })
    | inr n ↦ rw n (record { counted = ground arith; no_add = refl })
  ]

  clear-IsCounted : (net : Network) (proto addr : Text) → IsCounted t (clear_address net proto addr)
  unfolding clear_address
  clear-IsCounted net proto addr = elim (Bool-cases (text_eq proto (codes "unix"))) [
    | inl y ↦ rw y (
        bind-IsCounted (emit (remove_socket (codes "/" ++ addr))) _
          (remove-IsCounted (codes "/" ++ addr))
          (λ a.
            bind-IsCounted (removed (codes "/" ++ addr) (net.remove (codes "/" ++ addr))) _
              (removed-IsCounted (codes "/" ++ addr) (net.remove (codes "/" ++ addr)))
              (λ b. done-IsCounted (codes "/" ++ addr))))
    | inr n ↦ rw n (done-IsCounted addr)
  ]

  register-IsCounted : (b : Bool) (service : Service) → IsCounted t (register_if b service)
  register-IsCounted true service = record { counted = ground arith; no_add = refl }
  register-IsCounted false service = record { counted = ground arith; no_add = refl }

  services-IsCounted : (given : Services) → IsCounted t (register_services given)
  unfolding register_services
  services-IsCounted given =
      bind-IsCounted (register_if given.ids _) _ (register-IsCounted given.ids _) (λ a.
        bind-IsCounted (register_if given.cs _) _ (register-IsCounted given.cs _)
          (λ b. register-IsCounted given.ns _))

tail-IsCounted :
    (t : Bool) (say : Text → Text) (r : Result Text (Unit {0}))
    → IsCounted t (stop_in_tests t >>= λ _. (emit serve_calls >>= λ _. or_fatal say r))
tail-IsCounted true say (ok a) = record { counted = refl; no_add = refl }
tail-IsCounted true say (err e) = record { counted = refl; no_add = refl }
tail-IsCounted false say (ok a) = record { counted = refl; no_add = refl }
tail-IsCounted false say (err e) = record { counted = refl; no_add = refl }

at-IsCounted :
    (t : Bool) (net : Network) (given : Services) (proto addr : Text)
    → IsCounted t (serve_at net given t (proto, addr))
unfolding serve_at
at-IsCounted t net given proto addr =
    bind-IsCounted t (clear_address net proto addr) _ (clear-IsCounted t net proto addr) (λ address.
      bind-IsCounted t (emit (listen proto address)) _ (listen-IsCounted t proto address) (λ a.
        bind-IsCounted t
          (or_fatal (λ e. codes "Failed to listen: " ++ e) (net.open_listener proto address)) _
          (fatal-IsCounted t _ (net.open_listener proto address))
          (λ b. bind-IsCounted t (emit server_made) _ (made-IsCounted t) (λ c.
            bind-IsCounted t (register_services given) _ (services-IsCounted t given) (λ d.
              tail-IsCounted t (λ e. codes "Failed to serve grpc server: " ++ e) net.run_server)))))

serve-IsCounted :
    (net : Network) (endpoint : Text) (given : Services) (test_mode : Bool)
    → IsCounted test_mode (serve net endpoint given test_mode)
unfolding serve
serve-IsCounted net endpoint given test_mode =
    bind-IsCounted test_mode (or_fatal (λ e. e) (parse_endpoint endpoint)) _
      (fatal-IsCounted test_mode (λ e. e) (parse_endpoint endpoint))
      (λ target. at-IsCounted test_mode net given target.0 target.1)

-- `serve` never counts the wait group up.
pub serve-adds :
    (net : Network) (endpoint : Text) (given : Services) (test_mode : Bool)
    → adds (serve net endpoint given test_mode).1 ≡ 0
serve-adds net endpoint given test_mode = (serve-IsCounted net endpoint given test_mode).no_add

-- The wait group is counted down once for each run of the server in test mode, and never outside it:
-- whatever the endpoint, the network and the services, and also where the server has stopped.
pub start_server-dones :
    (net : Network) (endpoint : Text) (given : Services) (test_mode : Bool)
    → dones (start_server net endpoint given test_mode).1
      ≡ (if test_mode then serves (start_server net endpoint given test_mode).1 else 0)
unfolding start_server
start_server-dones net endpoint given test_mode =
    (serve-IsCounted net endpoint given test_mode).counted
