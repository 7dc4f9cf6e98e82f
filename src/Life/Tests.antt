-- ===== src/Life/Tests.antt =====
-- Runs of the application and of the service.
use srv_app.Base.{ℕ, ◌+◌, Text, codes, ◌≡◌, refl, true, false, [], ◌∷◌, ◌++◌, none, some}
use srv_app.Life.{
  App, Process, notify, net_shutdown, ini_shutdown, close_crash_chan, delete_pid_file, close_logs,
  complete, new_app, signals, start_singleton, shutdown, run, shutdown_notify, set_run_mode,
  inst_svc,
}
use srv_app.HttpSrv.{new_http_srv}
use srv_app.Stats.Queue.{new_queue}
use srv_app.Logs.{Notifier, SrvLog, Store, new_srv_log}
use srv_app.Life.Crash.{new_crash_state}
use srv_app.Life.Whole.{Around, System}
use srv_app.Life.Service.{
  start_pending, stop_pending, running, stopped, current, signalled, woken, interrogate, stop, Scm,
  install_svc, uninstall_svc, execute, execute_loop, handle_event,
}
use srv_app.Life.Service.Outcome.{execute_outcome}
use srv_app.Life.Startup.{
  RunCfg, Flags, refuses, chdir, init_logs, init, init_cfg, parse_flags, after_flags, run_win,
  run_service, server_steps,
}
use srv_app.Life.Startup.Outcome.{setup_outcome}

abbrev app : App
app = shutdown_notify 2 (shutdown_notify 1 new_app)

program : Unit {0}
unfolding new_app shutdown_notify signals start_singleton run execute execute_loop handle_event
    install_svc uninstall_svc set_run_mode init init_cfg parse_flags after_flags run_win run_service
program = tt

abbrev alone : Process
alone = record { run_status = none; creates_pid_file = true; run_status_after = some 7 }

run_test :
    run alone (4 ∷ 5 ∷ []) app
    ≡ some (
      notify 1
          ∷ notify 2
          ∷ net_shutdown
          ∷ ini_shutdown
          ∷ close_crash_chan
          ∷ delete_pid_file
          ∷ close_logs
          ∷ complete
          ∷ [],
      4,
    )
unfolding program
run_test = refl

run_waits : run alone [] app ≡ none
unfolding program
run_waits = refl

run_mode_test : (set_run_mode false true true app).run_mode ≡ inst_svc
unfolding program
run_mode_test = refl

abbrev buffer : Notifier
buffer = record { address = 1; is_buffered = false; is_log_closer = true }

abbrev logger : SrvLog × Store
logger = new_srv_log buffer buffer []

abbrev address : Text
address = codes "10.0.0.1:80"

-- A server with a listener, and a PID file.
abbrev system : System ℕ
system = record {
  net = record {
    srv = record new_http_srv {
      private_side = record new_http_srv.private_side {
        listeners = (address, record { addr = address; closing = false; config = none }) ∷ [];
      };
    };
    watch_signalled = false;
    queue = new_queue 3 0;
  };
  is_ini_shut = false;
  crash = new_crash_state;
  has_pid_file = true;
  store = logger.1;
  closed = [];
  is_complete = false;
  seen = [];
}

-- In the wait the resolver of the countries moves on.
abbrev around : Around ℕ
around = record {
  closes = λ k. true;
  waiting = λ n. record n { queue = record n.queue { geo = n.queue.geo + 1 } };
  configured = λ srv. srv;
  deletes = true;
}

-- A request that is ready when another goroutine signals may still be answered.
execute_outcome_example :
    execute alone (interrogate 6 ∷ signalled 3 ∷ interrogate 8 ∷ interrogate 9 ∷ []) app ≡ (
      start_pending ∷ running ∷ current 6 ∷ current 8 ∷ stopped ∷ [],
      some (shutdown (start_singleton alone app).0 ++ complete ∷ [], 3),
    )
unfolding program
execute_outcome_example =
    execute_outcome alone (interrogate 6 ∷ signalled 3 ∷ interrogate 8 ∷ interrogate 9 ∷ []) app
      refl

woken_test :
    (execute alone (signalled 3 ∷ woken ∷ interrogate 8 ∷ []) app).0
    ≡ start_pending ∷ running ∷ stopped ∷ []
unfolding program
woken_test = refl

stop_test :
    (execute alone (interrogate 6 ∷ stop ∷ interrogate 8 ∷ []) app).0
    ≡ start_pending ∷ running ∷ current 6 ∷ stop_pending ∷ stopped ∷ []
unfolding program
stop_test = refl

abbrev good : Scm
good = record {
  connects = true;
  exists = false;
  creates = true;
  sets_flags = true;
  starts = true;
  deletes = true;
}

abbrev asks_install : Flags
asks_install = record { run_svc = false; install = true; uninstall = false }

abbrev both : RunCfg
both = record { init_srv_cmd = true; init_srv_svc = true }

init_test : (init false asks_install good app).1.1 ≡ chdir ∷ init_logs ∷ server_steps
unfolding program
init_test = refl

setup_outcome_example :
    let (app', steps) = (init_cfg true asks_install good both app).1 in
    (steps ≡ chdir ∷ init_logs ∷ [])
    × (app'.shutting_down ≡ true)
    × (app'.exit_code ≡ 0)
    × (run_win refuses alone [] app' ≡ some ([], 1))
unfolding program
setup_outcome_example = setup_outcome asks_install good both app refuses alone [] refl refl refl
