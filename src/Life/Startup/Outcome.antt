-- ===== src/Life/Startup/Outcome.antt =====
-- How the flags decide what is started and what the process returns.
use srv_app.Base.{
  ℕ, ◌≡◌, refl, Bool, true, false, ◌&&◌, ◌||◌, not, List, [], ◌∷◌, ◌++◌, Option, none, some, arith,
  if◌then◌else◌, ap, ◌∙◌,
}
use srv_app.Life.{
  App, RunMode, run_svc, cmdline, Process, Action, complete, shutdown, signal_shutdown, signals,
  start_singleton, block_until_shutdown, set_run_mode,
}
use srv_app.Life.Shutdown.{first_code, run_outcome, signals_first}
use srv_app.Life.Service.{
  Scm, install_svc, uninstall_svc, event_code, Status, ScmEvent, start_pending, stop_pending,
  running, stopped, answers,
}
use srv_app.Life.Service.Outcome.{execute_outcome}
use srv_app.Life.Startup.{
  RunCfg, Flags, Dispatch, return_zero, executes, refuses, chdir, init_logs, server_steps, init_cfg,
  parse_flags, after_flags, run_win, run_mode_win, run_service,
}

-- Whether the flags ask for an installation or a removal; and whether that can be done.
abbrev pub is_setup : Flags → Bool
is_setup flags = not flags.run_svc && (flags.install || flags.uninstall)

abbrev pub is_set_up : Flags → Scm → Bool
is_set_up flags scm =
    if flags.install
    then scm.connects && (not scm.exists && (scm.creates && (scm.sets_flags && scm.starts)))
    else scm.connects && (scm.exists && scm.deletes)

-- An installation or a removal on Windows, in which CreateService does not fail, starts nothing but
-- the logs. It marks the application as shutting down, with the exit code 0 exactly if all its steps
-- succeed; but `Run` then returns 1 in either case, and does nothing of the shutdown.
pub setup_outcome :
    (flags : Flags) (scm : Scm) (cfg : RunCfg) (app : App) (d : Dispatch) (p : Process)
    (codes : List ℕ)
    → app.shutting_down ≡ false
    → is_setup flags ≡ true
    → scm.creates ≡ true
    → let (app', steps) = (init_cfg true flags scm cfg app).1 in
      (steps ≡ chdir ∷ init_logs ∷ [])
      × (app'.shutting_down ≡ true)
      × (app'.exit_code ≡ (if is_set_up flags scm then 0 else 1))
      × (run_win d p codes app' ≡ some ([], 1))
unfolding init_cfg parse_flags after_flags set_run_mode run_win install_svc uninstall_svc
    signal_shutdown
setup_outcome flags scm cfg app d p codes up setup created = ground arith

-- Where the flags ask for no installation or removal, or off Windows, all of the start-up is done
-- and the application is not shutting down.
pub startup_outcome :
    (windows : Bool) (flags : Flags) (scm : Scm) (cfg : RunCfg) (app : App)
    → app.shutting_down ≡ false
    → (windows && is_setup flags) ≡ false
    → let (app', steps) = (init_cfg windows flags scm cfg app).1 in
      (steps ≡ chdir ∷ init_logs ∷ server_steps) × (app'.shutting_down ≡ false)
unfolding init_cfg parse_flags after_flags set_run_mode
startup_outcome windows flags scm cfg app up other = ground arith

-- The exit code of an application that is started whatever is signalled before.
abbrev pub code_or_one : List ℕ → ℕ
code_or_one [] = 1
code_or_one (c ∷ cs) = c

abbrev ended : App → Option ℕ → Option (List Action × ℕ)
ended app code = elim code [ none ↦ none | some c ↦ some (shutdown app ++ complete ∷ [], c) ]

-- What `Run` returns on Windows, and the shutdown that it does before: none while it waits.
abbrev pub win_outcome : Bool → Dispatch → Process → List ℕ → App → Option (List Action × ℕ)
win_outcome false d p codes app =
    let (app', started) = start_singleton p app in ended app' (first_code started codes)
win_outcome true (executes events) p codes app =
    let (app', started) = start_singleton p app in
    return_zero (ended app' (if started then event_code events else some 1))
win_outcome true refuses p codes app = ended app (some (code_or_one codes))

refused_outcome :
    (codes : List ℕ) (app : App)
    → app.shutting_down ≡ false
    → block_until_shutdown (signal_shutdown 1 (signals codes app))
      ≡ ended app (some (code_or_one codes))
unfolding block_until_shutdown shutdown signal_shutdown signals
refused_outcome [] app up = ground arith
refused_outcome (c ∷ cs) app up = let first = signals_first c cs app up in ground (arith, first)

-- The second component of what `execute_outcome` says.
split :
    (started : Bool) (code : Option ℕ) (app : App) (events : List ScmEvent)
    → let done = shutdown app ++ complete ∷ [] in
      let answer : List Status × Option (List Action × ℕ) =
        if started
        then elim code [
          | none ↦ (start_pending ∷ running ∷ answers events, none)
          | some c ↦ (start_pending ∷ running ∷ (answers events ++ stopped ∷ []), some (done, c))
        ]
        else (start_pending ∷ stop_pending ∷ running ∷ stopped ∷ [], some (done, 1)) in
      answer.1 ≡ ended app (if started then code else some 1)
split true none app events = refl
split true (some c) app events = refl
split false code app events = refl

run_service_outcome :
    (d : Dispatch) (p : Process) (codes : List ℕ) (app : App)
    → app.shutting_down ≡ false
    → run_service d p codes app ≡ win_outcome true d p codes app
unfolding run_service
run_service_outcome (executes events) p codes app up =
    let (app', started) = start_singleton p app in
    ap (λ (r : List Status × Option (List Action × ℕ)). return_zero r.1)
      (execute_outcome p events app up)
    ∙ ap return_zero (split started (event_code events) app' events)
run_service_outcome refuses p codes app up = refused_outcome codes app up

run_win_mode :
    (d : Dispatch) (p : Process) (codes : List ℕ) (app : App) (service : Bool)
    → app.shutting_down ≡ false
    → app.run_mode ≡ (if service then run_svc else cmdline)
    → run_win d p codes app ≡ win_outcome service d p codes app
unfolding run_win
run_win_mode d p codes app true up mode =
    ap (λ (m : RunMode). run_mode_win m d p codes app) mode ∙ run_service_outcome d p codes app up
run_win_mode d p codes app false up mode =
    ap (λ (m : RunMode). run_mode_win m d p codes app) mode ∙ run_outcome p codes app up

mode_lem :
    (flags : Flags) (scm : Scm) (cfg : RunCfg) (app : App)
    → app.shutting_down ≡ false
    → is_setup flags ≡ false
    → (init_cfg true flags scm cfg app).1.0.run_mode ≡ (if flags.run_svc then run_svc else cmdline)
unfolding init_cfg parse_flags after_flags set_run_mode
mode_lem flags scm cfg app up other = ground arith

-- After a start-up on Windows that is no installation or removal, `Run` ends on the command line with
-- the first signal and its code, or with 1 if the application cannot be started. As a service it
-- returns 0 once an event has ended it, whatever the exit code; and if the service cannot be run, the
-- code of the first signal, or 1. Where it ends, all of the shutdown is done.
run_win_outcome :
    (flags : Flags) (scm : Scm) (cfg : RunCfg) (app : App) (d : Dispatch) (p : Process)
    (codes : List ℕ)
    → app.shutting_down ≡ false
    → is_setup flags ≡ false
    → let app' = (init_cfg true flags scm cfg app).1.0 in
      run_win d p codes app' ≡ win_outcome flags.run_svc d p codes app'
run_win_outcome flags scm cfg app d p codes up other =
    run_win_mode d p codes (init_cfg true flags scm cfg app).1.0 flags.run_svc
      (startup_outcome true flags scm cfg app up other).1 (mode_lem flags scm cfg app up other)
