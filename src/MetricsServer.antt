-- ===== src/MetricsServer.antt =====
-- The options of the metrics server (internal/metrics/server.go).
use csi_driver_rclone.Prelude.{
  ◌>>=◌, ◌>>◌, ℤ, pos, ◌≡◌, ◌↔◌, refl, sym, false≢true, Bool, true, false, not, Option, none, some,
  Result, ok, err, ◌++◌, List, [], ◌∷◌, if◌then◌else◌, is_negative,
}
use csi_driver_rclone.Text.{Text, codes, is_empty, has_prefix}

-- The time-outs are in nanoseconds.
pub record MetricsOptions : Type 0 where
  pub metrics_path : Text
  pub read_timeout : ℤ
  pub write_timeout : ℤ
  pub idle_timeout : ℤ
  pub metrics_addr : Text

-- `quote` is how `%q` prints a string.
unfoldable pub validate_options : (Text → Text) → Option MetricsOptions → Result Text (Unit {0})
validate_options quote none = err (codes "options cannot be nil")
validate_options quote (some o) =
    if is_empty o.metrics_addr
    then err (codes "metrics address cannot be empty")
    else if not (has_prefix o.metrics_path (codes "/"))
    then err (codes "metrics path must start with '/', got " ++ quote o.metrics_path)
    else if is_negative o.read_timeout
    then err (codes "metrics read timeout cannot be negative")
    else if is_negative o.write_timeout
    then err (codes "metrics write timeout cannot be negative")
    else if is_negative o.idle_timeout
    then err (codes "metrics idle timeout cannot be negative")
    else ok tt

abbrev pub default_options : MetricsOptions
default_options = record {
  metrics_path = codes "/metrics";
  read_timeout = pos 10000000000;
  write_timeout = pos 10000000000;
  idle_timeout = pos 60000000000;
  metrics_addr = [];
}

-- The options that a server can be started with.
abbrev pub IsServable : MetricsOptions → Type 0
IsServable o =
    (is_empty o.metrics_addr ≡ false)
    × (has_prefix o.metrics_path (codes "/") ≡ true)
    × (is_negative o.read_timeout ≡ false)
    × (is_negative o.write_timeout ≡ false)
    × (is_negative o.idle_timeout ≡ false)

-- The test of five conditions in a row.
tests_iff :
    (a p r w i : Bool) (e1 e2 e3 e4 e5 : Text)
    → (◌≡◌ {A = Result Text (Unit {0})}
        (if a
          then err e1
          else if not p
          then err e2
          else if r
          then err e3
          else if w
          then err e4
          else if i
          then err e5
          else ok tt)
        (ok tt))
      ↔ ((a ≡ false) × (p ≡ true) × (r ≡ false) × (w ≡ false) × (i ≡ false))
tests_iff true p r w i e1 e2 e3 e4 e5 = (λ h. absurd (cc), λ q. absurd (false≢true (sym q.0)))
tests_iff false false r w i e1 e2 e3 e4 e5 = (λ h. absurd (cc), λ q. absurd (false≢true q.1))
tests_iff false true true w i e1 e2 e3 e4 e5 =
    (λ h. absurd (cc), λ q. absurd (false≢true (sym q.2)))
tests_iff false true false true i e1 e2 e3 e4 e5 =
    (λ h. absurd (cc), λ q. absurd (false≢true (sym q.3)))
tests_iff false true false false true e1 e2 e3 e4 e5 =
    (λ h. absurd (cc), λ q. absurd (false≢true (sym q.4)))
tests_iff false true false false false e1 e2 e3 e4 e5 =
    (λ h. (refl, refl, refl, refl, refl), λ q. refl)

-- Options are accepted exactly when the address is not empty, the path starts with a slash and no
-- time-out is negative.
pub validate_options_iff :
    (quote : Text → Text) (o : MetricsOptions)
    → (validate_options quote (some o) ≡ ok tt) ↔ IsServable o
unfolding validate_options
validate_options_iff quote o =
    tests_iff (is_empty o.metrics_addr) (has_prefix o.metrics_path (codes "/"))
      (is_negative o.read_timeout) (is_negative o.write_timeout) (is_negative o.idle_timeout) _ _ _
      _ _

-- The server that `Start` makes: its route, time-outs and address.
pub record RunningServer : Type 0 where
  pub pattern : Text
  pub read_timeout : ℤ
  pub write_timeout : ℤ
  pub idle_timeout : ℤ
  pub listener : Text

abbrev listening : Text → Result Text Text → Result Text Text
listening addr (ok l) = ok l
listening addr (err e) = err (codes "failed to listen on " ++ (addr ++ (codes ": " ++ e)))

-- `listen` is `net.Listen` for TCP; its answer is the address of the listener.
unfoldable pub start_metrics :
    (Text → Text) → (Text → Result Text Text) → Option MetricsOptions → Result Text RunningServer
unfolding validate_options
start_metrics quote listen none = err (codes "options cannot be nil")
start_metrics quote listen (some opt) = do
  validate_options quote (some opt)
  listener ← listening opt.metrics_addr (listen opt.metrics_addr)
  ok (record {
    pattern = codes "GET " ++ opt.metrics_path;
    read_timeout = opt.read_timeout;
    write_timeout = opt.write_timeout;
    idle_timeout = opt.idle_timeout;
    listener = listener;
  })

-- The address of the listener.
unfoldable addr : RunningServer → Text
addr server = server.listener

-- How `Serve` ends: by `http.ErrServerClosed`, or by another error. It never returns nil.
pub data ServeEnd : Type 0 where
  server_closed : ServeEnd
  failed : (text : Text) → ServeEnd

-- What the goroutine of `Start` sends on the channel `done` before it closes it.
unfoldable sent_done : ServeEnd → List Text
sent_done server_closed = []
sent_done (failed text) = text ∷ []

-- `<-s.done`: the first value that was sent, or, from a closed channel, a nil error.
unfoldable received : List Text → Result Text (Unit {0})
received [] = ok tt
received (text ∷ rest) = err text

unfoldable wait : ServeEnd → Result Text (Unit {0})
unfolding sent_done received
wait end = received (sent_done end)

-- `none` for a nil context; `shut` is the answer of the HTTP server.
unfoldable pub shutdown :
    {C : Type 0} → (C → Result Text (Unit {0})) → Option C → Result Text (Unit {0})
shutdown shut none = err (codes "context cannot be nil")
shutdown shut (some ctx) = shut ctx

-- A server is started only with options that are accepted.
pub start_metrics-IsServable :
    (quote : Text → Text) (listen : Text → Result Text Text) (opt : MetricsOptions)
    {server : RunningServer}
    → start_metrics quote listen (some opt) ≡ ok server
    → IsServable opt
unfolding start_metrics
start_metrics-IsServable quote listen opt e =
    (validate_options_iff quote opt).0 (first_ok (validate_options quote (some opt)) _ e)
  where
    first_ok :
        {B : Type 0} {b : B} (v : Result Text (Unit {0})) (rest : Result Text B)
        → ◌≡◌ {A = Result Text B} (v >> rest) (ok b)
        → v ≡ ok tt
    first_ok (ok tt) rest e = refl
    first_ok (err x) rest e = absurd (cc)
