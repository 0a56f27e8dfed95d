-- ===== src/Server.antt =====
-- The gRPC server (pkg/rclone/server.go): `Start`, `serve`, and the wait group that `Wait` waits for.
pub mod Laws
pub mod Life
use csi_driver_rclone.Prelude.{
  ℕ, suc, ◌≡◌, refl, ◌⊎◌, inl, inr, Bool, true, false, List, [], ◌∷◌, ◌++◌, Result, ok, err,
  if◌then◌else◌, arith, ◌+◌, length, Bool-cases,
}
use csi_driver_rclone.Text.{Text, codes, text_eq}
use csi_driver_rclone.Endpoint.{parse_endpoint}
use csi_driver_rclone.Node.Calls.{PathError}
use csi_driver_rclone.Process.{P, ◌>>=◌, ◌>>◌, done, emit, or_fatal}

pub data Service : Type 0 where
  identity controller node : Service

pub data Event : Type 0 where
  remove_socket : (path : Text) → Event
  listen : (proto addr : Text) → Event
  -- `s.server = server`
  server_made : Event
  register : (service : Service) → Event
  -- `s.wg.Add(1)` and `s.wg.Done()`
  wait_group_add wait_group_done : Event
  -- the goroutine that stops the server after a test
  stop_later : Event
  serve_calls : Event

-- What `serve` is answered: by `os.Remove`, `net.Listen` and `server.Serve`.
pub record Network : Type 0 where
  pub remove : Text → Result PathError (Unit {0})
  pub open_listener : Text → Text → Result Text (Unit {0})
  pub run_server : Result Text (Unit {0})

-- The services that are given: none of them is nil in the driver.
pub record Services : Type 0 where
  pub ids : Bool
  pub cs : Bool
  pub ns : Bool

abbrev removed : Text → Result PathError (Unit {0}) → P Event Unit
removed addr (ok _) = done tt
removed addr (err e) =
    if e.not_exist
    then done tt
    else (err (codes "Failed to remove " ++ (addr ++ (codes ", error: " ++ e.text))), [])

-- The address to listen on; the socket that a former process left is removed.
unfoldable pub clear_address : Network → Text → Text → P Event Text
clear_address net proto addr =
    if text_eq proto (codes "unix")
    then (do
      emit (remove_socket (codes "/" ++ addr))
      removed (codes "/" ++ addr) (net.remove (codes "/" ++ addr))
      done (codes "/" ++ addr))
    else done addr

abbrev register_if : Bool → Service → P Event Unit
register_if b service = if b then emit (register service) else done tt

unfoldable pub register_services : Services → P Event Unit
register_services given = do
  register_if given.ids identity
  register_if given.cs controller
  register_if given.ns node

abbrev stop_in_tests : Bool → P Event Unit
stop_in_tests test_mode = if test_mode then (do emit wait_group_done; emit stop_later) else done tt

unfoldable pub serve_at : Network → Services → Bool → Text × Text → P Event Unit
unfolding clear_address register_services
serve_at net given test_mode (proto, addr) = do
  address ← clear_address net proto addr
  emit (listen proto address)
  or_fatal (λ e. codes "Failed to listen: " ++ e) (net.open_listener proto address)
  emit server_made
  register_services given
  stop_in_tests test_mode
  emit serve_calls
  or_fatal (λ e. codes "Failed to serve grpc server: " ++ e) net.run_server

unfoldable pub serve : Network → Text → Services → Bool → P Event Unit
unfolding serve_at
serve net endpoint given test_mode = do
  target ← or_fatal (λ e. e) (parse_endpoint endpoint)
  serve_at net given test_mode target

-- `Start`: the wait group is counted up, and `serve` runs in a goroutine of its own.
unfoldable pub start_server : Network → Text → Services → Bool → P Event Unit
unfolding serve
start_server net endpoint given test_mode = do
  emit wait_group_add
  serve net endpoint given test_mode
