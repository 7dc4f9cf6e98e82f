-- ===== src/Life/Package/Tests.antt =====
-- A start-up on Windows without flags, and an installation.
use srv_app.Base.{value_or, ◌≡◌, refl, true, false, [], none, Text, codes}
use srv_app.Logs.{Notifier}
use srv_app.HttpSrv.{HttpSrv}
use srv_app.Life.{new_app, set_run_mode, signal_shutdown}
use srv_app.Life.Service.{Scm, install_svc}
use srv_app.Life.Startup.{RunCfg, Flags, init_cfg, parse_flags, after_flags}
use srv_app.Life.Package.{new_vars, init_vars, do_steps, do_step, app_config, query_shutdown}

program : Unit {0}
unfolding new_app set_run_mode signal_shutdown install_svc init_cfg parse_flags after_flags new_vars
    init_vars do_steps do_step app_config query_shutdown
program = tt

abbrev buffer : Notifier
buffer = record { address = 1; is_buffered = false; is_log_closer = false }

abbrev file : Notifier
file = record { address = 2; is_buffered = true; is_log_closer = true }

abbrev as_is : Text → Text
as_is p = p

abbrev no_flags : Flags
no_flags = record { run_svc = false; install = false; uninstall = false }

abbrev scm : Scm
scm = record {
  connects = true;
  exists = false;
  creates = true;
  sets_flags = true;
  starts = true;
  deletes = true;
}

abbrev both : RunCfg
both = record { init_srv_cmd = true; init_srv_svc = true }

-- After an installation there is no configuration file.
installed :
    let v = value_or (new_vars []) (
      init_vars buffer file
        (codes "app")
        as_is
        true
        (record no_flags { install = true })
        scm
        both
        (new_vars (codes "/opt"))) in
    (app_config v ≡ none) × (query_shutdown v ≡ true)
unfolding program
installed = (refl, refl)
