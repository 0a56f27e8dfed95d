-- ===== src/Witnesses/Startup.antt =====
-- The start of the program, its logs and its locks on small inputs.
use csi_driver_rclone.Prelude.{◌≡◌, ◌⊎◌, refl, inl, inr, true, false, none, List, [], ◌∷◌, ok}
use csi_driver_rclone.Text.{has_prefix, split_n2, text_eq, codes, is_empty, contains, to_lower}
use csi_driver_rclone.GoMap.{Params}
use csi_driver_rclone.Locks.{VolumeLocks, has}
use csi_driver_rclone.Locks.Abstract.{
  Call, try_call, release_call, run as run_calls, replay, run_refines,
}
use csi_driver_rclone.Controller.Logs.{is_sensitive, log_parameters, log_parameters-masked}
use csi_driver_rclone.Endpoint.{parse_endpoint}
use csi_driver_rclone.Server.{Network, Services, serve, serve_at, clear_address, register_services}
use csi_driver_rclone.Server.Life.{
  GrpcServer, Reach, here, next, step_serve, step_stop, start, serve_event, stop, wait,
  wait-blocked, wait-test_mode,
}
use csi_driver_rclone.Rc
use csi_driver_rclone.Rc.{IsGuarded}
use csi_driver_rclone.MetricsServer.{IsServable, default_options}
use csi_driver_rclone.Main.{
  Flags, World, main, run, run_metrics_server, run_rc_server, init_metrics_collector,
}
use csi_driver_rclone.Main.Laws.{main_sound}
use csi_driver_rclone.Driver.{default_driver_name}
use csi_driver_rclone.Version.{get_version_yaml}
use csi_driver_rclone.Witnesses.Services.{rc_defaults, guarded_options}
use csi_driver_rclone.Witnesses.Metrics.{sample_build}

abbrev some_calls : List Call
some_calls =
    try_call (codes "v")
    ∷ try_call (codes "v")
    ∷ release_call (codes "v")
    ∷ try_call (codes "v")
    ∷ []

abbrev free_locks : VolumeLocks
free_locks = record { locks = [] }

run_refines_example : run_calls some_calls free_locks ≡ replay some_calls (has free_locks.locks)
run_refines_example = run_refines some_calls free_locks

abbrev one_secret : Params
one_secret = (codes "remote", codes "s3") ∷ (codes "S3-Secret-Access", codes "abc") ∷ []

abbrev other_secret : Params
other_secret = (codes "remote", codes "s3") ∷ (codes "S3-Secret-Access", codes "xyz") ∷ []

log_parameters-masked_example :
    log_parameters (λ s. s) one_secret ≡ log_parameters (λ s. s) other_secret
unfolding is_sensitive contains to_lower
log_parameters-masked_example =
    log_parameters-masked (λ s. s) one_secret other_secret
      (
        refl,
        inr refl,
        (refl, inl (codes "secret", codes "s3-", codes "-access", refl, inr (inl refl)), tt),
      )

abbrev open_network : Network
open_network = record {
  remove = λ path. ok tt;
  open_listener = λ proto addr. ok tt;
  run_server = ok tt;
}

abbrev all_services : Services
all_services = record { ids = true; cs = true; ns = true }

-- The socket is removed, the server listens and is made, and `Stop` is called.
abbrev stopped :
    (s : GrpcServer) × Reach (start open_network (codes "unix:///csi.sock") all_services false) s
unfolding start serve serve_at clear_address serve_event stop parse_endpoint has_prefix to_lower
    split_n2 text_eq
stopped = (
  _,
  next (next (next (next here (step_serve _ _ refl)) (step_serve _ _ refl)) (step_serve _ _ refl))
      (step_stop _ refl),
)

wait-blocked_example : wait stopped.0 ≡ false
wait-blocked_example = wait-blocked open_network (codes "unix:///csi.sock") all_services stopped.1

-- In test mode, to the end of `serve`.
abbrev finished :
    (s : GrpcServer) × Reach (start open_network (codes "unix:///csi.sock") all_services true) s
unfolding start serve serve_at clear_address register_services serve_event parse_endpoint has_prefix
    to_lower split_n2 text_eq
finished = (
  _,
  next
      (next
        (next
          (next
            (next
              (next
                (next (next (next here (step_serve _ _ refl)) (step_serve _ _ refl))
                  (step_serve _ _ refl))
                (step_serve _ _ refl))
              (step_serve _ _ refl))
            (step_serve _ _ refl))
          (step_serve _ _ refl))
        (step_serve _ _ refl))
      (step_serve _ _ refl),
)

wait-test_mode_example : wait finished.0 ≡ true
unfolding serve serve_at clear_address register_services serve_event parse_endpoint has_prefix
    to_lower split_n2 text_eq start
wait-test_mode_example =
    wait-test_mode open_network (codes "unix:///csi.sock") all_services true refl finished.1 refl

abbrev sample_world : World
sample_world = record {
  build = sample_build;
  marshal = λ v. ok v.driver_name;
  quote = λ s. s;
  listen = λ addr. ok addr;
  rc_defaults = rc_defaults;
  rcserver_start = λ r. ok tt;
  init_global_options = ok tt;
  csi_collector = none;
  register_collector = λ c. ok tt;
  wait = ok tt;
}

abbrev sample_flags : Flags
sample_flags = record {
  endpoint = codes "unix://tmp/csi.sock";
  node_id = codes "n";
  driver_name = default_driver_name;
  metrics = default_options;
  rc = guarded_options;
}

main_sound_example :
    ((is_empty sample_flags.metrics.metrics_addr ≡ true) ⊎ IsServable sample_flags.metrics)
    × ((sample_flags.rc.enabled ≡ false)
        ⊎ ((r : Rc.RcOptions) × (sample_world.rcserver_start r ≡ ok tt) × IsGuarded r))
unfolding main run run_metrics_server run_rc_server init_metrics_collector Rc.start get_version_yaml
main_sound_example = main_sound sample_world sample_flags refl
