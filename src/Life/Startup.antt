-- ===== src/Life/Startup.antt =====
-- srvApp.go: `InitCfg` and `parseFlags`; and the `afterFlags` and `run` of both platforms, those of
-- Windows in run_win.go.
pub mod Outcome
use srv_app.Base.{ℕ, Bool, true, false, List, [], ◌∷◌, Option, none, some, if◌then◌else◌}
use srv_app.Life.{
  App, RunMode, cmdline, run_svc, inst_svc, uninst_svc, Process, Action, set_run_mode,
  signal_shutdown, signals, block_until_shutdown, run,
}
use srv_app.Life.Service.{ScmEvent, Scm, install_svc, uninstall_svc, execute}

pub record RunCfg : Type 0 where
  pub init_srv_cmd : Bool
  pub init_srv_svc : Bool

-- The flags on the command line.
pub record Flags : Type 0 where
  pub run_svc : Bool
  pub install : Bool
  pub uninstall : Bool

-- On Windows alone the flags are registered, so elsewhere the variables stay false.
unfoldable pub parse_flags : Bool → Flags → App → App
unfolding set_run_mode
parse_flags windows flags app =
    if windows
    then set_run_mode flags.run_svc flags.install flags.uninstall app
    else set_run_mode false false false app

abbrev pub on_mode : RunMode → Scm → App → App
on_mode inst_svc scm app = install_svc scm app
on_mode uninst_svc scm app = uninstall_svc scm app
on_mode cmdline scm app = app
on_mode run_svc scm app = app

unfoldable pub after_flags : Bool → Scm → App → App
after_flags windows scm app = if windows then on_mode app.run_mode scm app else app

-- What `InitCfg` calls, apart from the two above.
pub data InitStep : Type 0 where
  chdir init_logs add_uptime new_ini add_file_handler add_email_handler : InitStep
  catch_sig_int catch_crash net_init subscribe : InitStep

abbrev pub server_steps : List InitStep
server_steps =
    add_uptime ∷ new_ini ∷ add_file_handler ∷ add_email_handler ∷ catch_sig_int ∷ catch_crash
    ∷ net_init ∷ subscribe ∷ []

-- `InitCfg`: the configuration that is kept, the state, and what was called.
unfoldable pub init_cfg : Bool → Flags → Scm → RunCfg → App → RunCfg × (App × List InitStep)
unfolding parse_flags after_flags
init_cfg windows flags scm cfg app =
    let app' = after_flags windows scm (parse_flags windows flags app) in
    (cfg, (app', chdir ∷ init_logs ∷ (if app'.shutting_down then [] else server_steps)))

-- `Init`
unfoldable pub init : Bool → Flags → Scm → App → RunCfg × (App × List InitStep)
unfolding init_cfg
init windows flags scm =
    init_cfg windows flags scm (record { init_srv_cmd = true; init_srv_svc = true })

-- What `svc.Run` does: it calls `Execute` with these events and returns no error, or it returns an
-- error at once.
pub data Dispatch : Type 0 where
  executes : List ScmEvent → Dispatch
  refuses : Dispatch

abbrev pub return_zero : Option (List Action × ℕ) → Option (List Action × ℕ)
return_zero none = none
return_zero (some (done, code)) = some (done, 0)

-- `runSvc`; the exit code of `Execute` goes to the service control manager. `codes` are the signals
-- of other goroutines until `svc.Run` returns its error.
unfoldable pub run_service : Dispatch → Process → List ℕ → App → Option (List Action × ℕ)
unfolding execute block_until_shutdown signal_shutdown signals
run_service (executes events) p codes app = return_zero (execute p events app).1
run_service refuses p codes app = block_until_shutdown (signal_shutdown 1 (signals codes app))

abbrev pub run_mode_win : RunMode → Dispatch → Process → List ℕ → App → Option (List Action × ℕ)
run_mode_win cmdline d p codes app = run p codes app
run_mode_win run_svc d p codes app = run_service d p codes app
run_mode_win inst_svc d p codes app = some ([], 1)
run_mode_win uninst_svc d p codes app = some ([], 1)

-- `Run` on Windows.
unfoldable pub run_win : Dispatch → Process → List ℕ → App → Option (List Action × ℕ)
unfolding run_service
run_win d p codes app = run_mode_win app.run_mode d p codes app
