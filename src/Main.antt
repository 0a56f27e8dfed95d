-- ===== src/Main.antt =====
-- The program: `main` (cmd/rcloneplugin/main.go), with `Run` and `initMetricsCollector`
-- (pkg/rclone/rclone.go and metrics_collector.go).
pub mod Laws
use csi_driver_rclone.Prelude.{
  Bool, true, false, not, Option, none, some, List, [], ◌∷◌, ◌++◌, Result, ok, err, if◌then◌else◌,
}
use csi_driver_rclone.Text.{Text, codes, is_empty}
use csi_driver_rclone.Version.{Build, VersionInfo, get_version_yaml, get_version}
use csi_driver_rclone.Metrics.Descs.{Collector, new_metrics_collector}
use csi_driver_rclone.MetricsServer.{MetricsOptions, RunningServer, start_metrics}
use csi_driver_rclone.Rc
use csi_driver_rclone.Driver.{Driver, DriverOptions, new_driver, default_driver_name}
use csi_driver_rclone.Process.{P, ◌>>=◌, ◌>>◌, done, emit, or_fatal}

-- What the process does, in order.
pub data Event : Type 0 where
  metrics_server_started : (server : RunningServer) → Event
  rc_server_started : Event
  global_options_initialised accounting_started : Event
  collector_registered : (collector : Collector) → Event
  grpc_server_started : (endpoint : Text) → Event

-- The flags, after `flag.Parse`.
pub record Flags : Type 0 where
  pub endpoint : Text
  pub node_id : Text
  pub driver_name : Text
  pub metrics : MetricsOptions
  pub rc : Rc.Options

-- How `prometheus.Register` fails.
pub data RegisterError : Type 0 where
  already_registered : RegisterError
  refused : (text : Text) → RegisterError

pub record World : Type 0 where
  pub build : Build
  pub marshal : VersionInfo → Result Text Text
  pub quote : Text → Text
  pub listen : Text → Result Text Text
  pub rc_defaults : Rc.RcOptions
  pub rcserver_start : Rc.RcOptions → Result Text (Unit {0})
  pub init_global_options : Result Text (Unit {0})
  -- the collector that a former call left, if any
  pub csi_collector : Option Collector
  pub register_collector : Collector → Result RegisterError (Unit {0})
  -- how the wait for the gRPC server ends
  pub wait : Result Text (Unit {0})

abbrev registered : Result RegisterError (Unit {0}) → Result Text (Unit {0})
registered (ok _) = ok tt
registered (err already_registered) = ok tt
registered (err (refused text)) =
    err (codes "failed to register CSI Prometheus collector: " ++ text)

-- rclone's own collector is registered too; whether that fails is only logged.
unfoldable pub init_metrics_collector : World → Driver → P Event Unit
unfolding new_metrics_collector get_version
init_metrics_collector w d = elim w.csi_collector [
  | some c ↦ done tt
  | none ↦
      (let c = new_metrics_collector d.node_id d.name d.endpoint (get_version w.build d.name) in
        do
          emit (collector_registered c)
          or_fatal (λ e. codes "Failed to initialize CSI metrics collector: " ++ e)
              (registered (w.register_collector c)))
]

unfoldable pub run : World → Driver → P Event Unit
unfolding init_metrics_collector get_version_yaml
run w d = do
  or_fatal (λ e. e) (get_version_yaml w.marshal w.build d.name)
  or_fatal (λ e. codes "Failed to initialize rclone global options: " ++ e) w.init_global_options
  emit global_options_initialised
  emit accounting_started
  init_metrics_collector w d
  emit (grpc_server_started d.endpoint)
  or_fatal (λ e. e) w.wait

unfoldable pub run_metrics_server : World → MetricsOptions → P Event Unit
run_metrics_server w opts =
    if not (is_empty opts.metrics_addr)
    then (do
      server ←
          or_fatal (λ e. codes "Failed to start metrics server: " ++ e)
            (start_metrics w.quote w.listen (some opts))
      emit (metrics_server_started server))
    else done tt

abbrev rc_started : Option (Unit {0}) → P Event Unit
rc_started none = done tt
rc_started (some s) = emit rc_server_started

unfoldable pub run_rc_server : World → Rc.Options → P Event Unit
run_rc_server w opts =
    if opts.enabled
    then (do
      server ←
          or_fatal (λ e. codes "Failed to start RC server: " ++ e)
            (Rc.start w.rc_defaults w.rcserver_start (some opts))
      rc_started server)
    else done tt

unfoldable pub main : World → Flags → P Event Unit
main w flags = do
  run_metrics_server w flags.metrics
  run_rc_server w flags.rc
  run w (
      new_driver w.build (record {
        node_id = flags.node_id;
        driver_name = flags.driver_name;
        endpoint = flags.endpoint;
      }))
