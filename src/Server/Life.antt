-- ===== src/Server/Life.antt =====
-- The gRPC server beside those that call `Wait`, `Stop` and `ForceStop` (pkg/rclone/server.go).
use csi_driver_rclone.Prelude.{
  ℕ, suc, ◌-◌, ◌≤◌, ◌≡◌, arith, Bool, true, false, Option, none, some, List, [], ◌∷◌, ltb, not,
  subst,
}
use csi_driver_rclone.Text.{Text}
use csi_driver_rclone.Server.{
  Event, wait_group_add, wait_group_done, server_made, Network, Services, serve, start_server,
}
use csi_driver_rclone.Server.Laws.{adds, dones, serves, serve-adds, start_server-dones}

-- What the server of the gRPC library is asked.
pub data StopCall : Type 0 where
  graceful_stop stop_now : StopCall

-- `nonBlockingGRPCServer`: the count of the wait group, and the calls that the server has got, where
-- `serve` has made one; and what the goroutine of `serve` has still to do.
pub record GrpcServer : Type 0 where
  pub wait_group : ℕ
  pub server : Option (List StopCall)
  pub left : List Event

unfoldable pub serve_event : Event → GrpcServer → GrpcServer
serve_event wait_group_add s = record s { wait_group = suc s.wait_group }
serve_event wait_group_done s = record s { wait_group = s.wait_group - 1 }
serve_event server_made s = record s { server = some [] }
serve_event _ s = s

-- `Start` has returned.
unfoldable pub start : Network → Text → Services → Bool → GrpcServer
start net endpoint given test_mode = record {
  wait_group = 1;
  server = none;
  left = (serve net endpoint given test_mode).1;
}

-- Does `Wait` return?
unfoldable pub wait : GrpcServer → Bool
wait s = not (ltb 0 s.wait_group)

abbrev asked : StopCall → Option (List StopCall) → Option (List StopCall)
asked c none = none
asked c (some calls) = some (c ∷ calls)

-- `none` is the panic on a server that is nil.
abbrev call_server : GrpcServer → Option (List StopCall) → Option GrpcServer
call_server s none = none
call_server s (some calls) = some (record s { server = some calls })

unfoldable pub stop : GrpcServer → Option GrpcServer
stop s = call_server s (asked graceful_stop s.server)

unfoldable pub force_stop : GrpcServer → Option GrpcServer
force_stop s = call_server s (asked stop_now s.server)

pub data Step (s : GrpcServer) : GrpcServer → Type 0 where
  step_serve :
      (e : Event) (rest : List Event)
      → s.left ≡ e ∷ rest
      → Step s (record (serve_event e s) { left = rest })
  step_stop : (t : GrpcServer) → stop s ≡ some t → Step s t
  step_force_stop : (t : GrpcServer) → force_stop s ≡ some t → Step s t

pub data Reach (s : GrpcServer) : GrpcServer → Type 0 where
  here : Reach s s
  next : {t u : GrpcServer} → Reach s t → Step t u → Reach s u

-- What the goroutine keeps of the wait group and of what it has still to do, is so in every state.
module _ (I : ℕ → List Event → Type 0)
    (kept : (x : Event) (rest : List Event) (s : GrpcServer)
      → I s.wait_group (x ∷ rest)
      → I (serve_event x s).wait_group rest) where
  call-kept :
      (s t : GrpcServer) (o : Option (List StopCall))
      → call_server s o ≡ some t
      → I s.wait_group s.left
      → I t.wait_group t.left
  call-kept s t none e h = absurd (cc)
  call-kept s t (some calls) e h =
      let e' : record s { server = some calls } ≡ t = cc in subst (λ u. I u.wait_group u.left) e' h

  Step-kept : {s t : GrpcServer} → Step s t → I s.wait_group s.left → I t.wait_group t.left
  unfolding stop force_stop
  Step-kept {s} (step_serve e rest l) h = kept e rest s (subst (I s.wait_group) l h)
  Step-kept {s} (step_stop t e) h = call-kept s t (asked graceful_stop s.server) e h
  Step-kept {s} (step_force_stop t e) h = call-kept s t (asked stop_now s.server) e h

  Reach-kept : {s t : GrpcServer} → Reach s t → I s.wait_group s.left → I t.wait_group t.left
  Reach-kept here h = h
  Reach-kept (next r k) h = Step-kept k (Reach-kept r h)

-- The wait group is never counted down.
record IsBlocked (n : ℕ) (left : List Event) : Type 0 where
  waits : 1 ≤ n
  no_done : dones left ≡ 0

serve-IsBlocked :
    (x : Event) (rest : List Event) (s : GrpcServer)
    → IsBlocked s.wait_group (x ∷ rest)
    → IsBlocked (serve_event x s).wait_group rest
unfolding serve_event
serve-IsBlocked wait_group_add rest s h = record {
  waits = omega (arith, h.waits);
  no_done = h.no_done;
}
serve-IsBlocked wait_group_done rest s h = let d = h.no_done in absurd (cc)
serve-IsBlocked _ rest s h = record { waits = h.waits; no_done = h.no_done }

-- It is counted down as often as it has to be, or more often, and never up.
record IsDraining (n : ℕ) (left : List Event) : Type 0 where
  enough : n ≤ dones left
  no_add : adds left ≡ 0

serve-IsDraining :
    (x : Event) (rest : List Event) (s : GrpcServer)
    → IsDraining s.wait_group (x ∷ rest)
    → IsDraining (serve_event x s).wait_group rest
unfolding serve_event
serve-IsDraining wait_group_add rest s h = let a = h.no_add in absurd (cc)
serve-IsDraining wait_group_done rest s h = record {
  enough = omega (arith, h.enough);
  no_add = h.no_add;
}
serve-IsDraining _ rest s h = record { enough = h.enough; no_add = h.no_add }

start-IsBlocked :
    (net : Network) (endpoint : Text) (given : Services)
    → IsBlocked (start net endpoint given false).wait_group (start net endpoint given false).left
unfolding start start_server
start-IsBlocked net endpoint given = record {
  waits = omega arith;
  no_done = start_server-dones net endpoint given false;
}

start-IsDraining :
    (net : Network) (endpoint : Text) (given : Services)
    → serves (serve net endpoint given true).1 ≡ 1
    → IsDraining (start net endpoint given true).wait_group (start net endpoint given true).left
unfolding start start_server
start-IsDraining net endpoint given h =
    let d : dones (serve net endpoint given true).1 ≡ serves (serve net endpoint given true).1 =
      start_server-dones net endpoint given true in
    record { enough = omega (arith, d, h); no_add = serve-adds net endpoint given true }

drained : (s : GrpcServer) → s.left ≡ [] → IsDraining s.wait_group s.left → wait s ≡ true
unfolding wait
drained s e h = ground (arith, subst (λ k. s.wait_group ≤ dones k) e h.enough)

-- Outside test mode `Wait` never returns: in no state that `serve`, and calls of `Stop` and `ForceStop`
-- in any order, can lead to after `Start`, whatever the endpoint, the network and the services.
pub wait-blocked :
    (net : Network) (endpoint : Text) (given : Services) {s : GrpcServer}
    → Reach (start net endpoint given false) s
    → wait s ≡ false
unfolding wait
wait-blocked net endpoint given {s} r =
    ground
      (arith, (Reach-kept IsBlocked serve-IsBlocked r (start-IsBlocked net endpoint given)).waits)

-- Where `serve` comes to run the server, and has done all it has to do, `Wait` returns in test mode and
-- not outside it, however often `Stop` and `ForceStop` are called.
pub wait-test_mode :
    (net : Network) (endpoint : Text) (given : Services) (test_mode : Bool) {s : GrpcServer}
    → serves (serve net endpoint given test_mode).1 ≡ 1
    → Reach (start net endpoint given test_mode) s
    → s.left ≡ []
    → wait s ≡ test_mode
wait-test_mode net endpoint given true {s} h r e =
    drained s e (Reach-kept IsDraining serve-IsDraining r (start-IsDraining net endpoint given h))
wait-test_mode net endpoint given false h r e = wait-blocked net endpoint given r
