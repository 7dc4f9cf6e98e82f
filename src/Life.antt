-- ===== src/Life.antt =====
-- srvApp.go, events.go and run.go: the life of the application, from its run mode to the ordered
-- shutdown. What other goroutines signal meanwhile is a list of exit codes in the order in which
-- they get the lock `cfgLock`.
pub mod Shutdown
pub mod Service
pub mod Startup
pub mod Crash
pub mod Interrupt
pub mod Package
pub mod Whole
mod Tests
use srv_app.Base.{
  ℕ, ◌+◌, Bool, true, false, not, List, [], ◌∷◌, ◌++◌, Option, none, some, if◌then◌else◌, map,
  is_none,
}

pub data RunMode : Type 0 where
  cmdline run_svc inst_svc uninst_svc : RunMode

-- The variables of the package that the functions here read and write. `started` counts the calls
-- of `appShutdown.Start()`; subscribers are named by numbers.
pub record App : Type 0 where
  pub shutting_down : Bool
  pub exit_code : ℕ
  pub run_mode : RunMode
  pub clean_pid : Bool
  pub app_process : Option ℕ
  pub shutdown_subs : List ℕ
  pub started : ℕ

unfoldable pub new_app : App
new_app = record {
  shutting_down = false;
  exit_code = 0;
  run_mode = cmdline;
  clean_pid = true;
  app_process = none;
  shutdown_subs = [];
  started = 0;
}

-- `setRunMode`, on the three flags.
unfoldable pub set_run_mode : Bool → Bool → Bool → App → App
set_run_mode run install uninstall app = record app {
  run_mode =
      if run
      then run_svc
      else if install
      then inst_svc
      else if uninstall
      then uninst_svc
      else cmdline;
}

-- `_signalShutdown`
unfoldable pub signal_shutdown : ℕ → App → App
signal_shutdown return_code app =
    if app.shutting_down
    then app
    else record app { shutting_down = true; exit_code = return_code; started = app.started + 1 }

-- Several signals, one after the other.
unfoldable pub signals : List ℕ → App → App
unfolding signal_shutdown
signals [] app = app
signals (c ∷ cs) app = signals cs (signal_shutdown c app)

-- `ShutdownNotify`
unfoldable pub shutdown_notify : ℕ → App → App
shutdown_notify f app = record app { shutdown_subs = app.shutdown_subs ++ f ∷ [] }

-- What the process table and the PID file answer: `GetRunStatus` twice, and whether `CreatePidFile`
-- succeeds.
pub record Process : Type 0 where
  pub run_status : Option ℕ
  pub creates_pid_file : Bool
  pub run_status_after : Option ℕ

unfoldable pub start_singleton : Process → App → App × Bool
start_singleton p app =
    if not (is_none p.run_status)
    then (record app { app_process = p.run_status; clean_pid = false }, false)
    else if not p.creates_pid_file
    then (record app { app_process = p.run_status }, false)
    else (record app { app_process = p.run_status_after }, not (is_none p.run_status_after))

-- What a shutdown does, in order.
pub data Action : Type 0 where
  notify : ℕ → Action
  net_shutdown ini_shutdown close_crash_chan delete_pid_file close_logs complete : Action

-- `notifyShutdown`
unfoldable pub notify_shutdown : List ℕ → List Action
notify_shutdown [] = []
notify_shutdown (f ∷ fs) = notify f ∷ notify_shutdown fs

-- `_shutdown`
unfoldable pub shutdown : App → List Action
unfolding notify_shutdown
shutdown app =
    notify_shutdown app.shutdown_subs
    ++ (net_shutdown
        ∷ ini_shutdown
        ∷ close_crash_chan
        ∷ ((if app.clean_pid then delete_pid_file ∷ [] else []) ++ close_logs ∷ []))

-- `blockUntilShutdown`: none while the signal is awaited; else what is done, and the exit code. (The
-- panic on a timeout of the shutdown is left out.)
unfoldable pub block_until_shutdown : App → Option (List Action × ℕ)
unfolding shutdown
block_until_shutdown app =
    if app.shutting_down then some (shutdown app ++ complete ∷ [], app.exit_code) else none

-- `startSingleton`, with the signal that `run` and `Execute` send where it fails.
unfoldable pub start_or_signal : Process → App → App
unfolding start_singleton signal_shutdown
start_or_signal p app =
    let (app', started) = start_singleton p app in
    if not started then signal_shutdown 1 app' else app'

-- `run` of run.go, and `runCmdline` of run_win.go; `codes` are the signals of other goroutines until
-- `blockUntilShutdown` goes on.
unfoldable pub run : Process → List ℕ → App → Option (List Action × ℕ)
unfolding start_or_signal block_until_shutdown signals
run p codes app = block_until_shutdown (signals codes (start_or_signal p app))
