-- ===== src/Life/Service/Outcome.antt =====
-- How a service run ends.
use srv_app.Base.{
  ℕ, ◌+◌, ◌≡◌, refl, true, false, ◌&&◌, not, List, [], ◌∷◌, ◌++◌, Option, none, some, if◌then◌else◌,
  arith, ◌∙◌,
}
use srv_app.Life.{
  App, Process, signal_shutdown, start_or_signal, start_singleton, block_until_shutdown, shutdown,
  complete,
}
use srv_app.Life.Shutdown.{start_singleton-keeps}
use srv_app.Life.Service.{
  start_pending, stop_pending, running, stopped, ScmEvent, signalled, woken, interrogate, stop,
  other, handle_event, execute_loop, execute, Scm, install_svc, uninstall_svc, event_code,
  last_answer, answers,
}

-- The state after a signal.
abbrev pub down : ℕ → App → App
down c app = record app { shutting_down = true; exit_code = c; started = app.started + 1 }

abbrev down_by : Option ℕ → App → App
down_by none app = app
down_by (some c) app = down c app

execute_loop_down :
    (es : List ScmEvent) (app : App)
    → app.shutting_down ≡ true
    → execute_loop es app ≡ (last_answer es, app)
unfolding execute_loop handle_event signal_shutdown
execute_loop_down [] app h = refl
execute_loop_down (signalled c ∷ es) app h = ground (arith, execute_loop_down es app h)
execute_loop_down (woken ∷ es) app h = ground arith
execute_loop_down (stop ∷ es) app h = ground arith
execute_loop_down (interrogate st ∷ es) app h = ground arith
execute_loop_down (other ∷ es) app h = ground arith

execute_loop_lem :
    (es : List ScmEvent) (app : App)
    → app.shutting_down ≡ false
    → execute_loop es app ≡ (answers es, down_by (event_code es) app)
unfolding execute_loop handle_event signal_shutdown
execute_loop_lem [] app h = refl
execute_loop_lem (signalled c ∷ es) app h =
    rw h (ground (arith, execute_loop_down es (down c app) refl))
execute_loop_lem (woken ∷ es) app h = ground (arith, execute_loop_lem es app h)
execute_loop_lem (stop ∷ es) app h = rw h refl
execute_loop_lem (interrogate st ∷ es) app h = ground (arith, execute_loop_lem es app h)
execute_loop_lem (other ∷ es) app h = ground (arith, execute_loop_lem es app h)

-- A service that could be started reports that it is starting and running, and answers the requests
-- up to the one to stop or, once another goroutine has signalled a shutdown, at most one more, which
-- its select takes before the signal. Once there is a signal, it shuts down with the code of the first,
-- 0 for a request to stop, and reports last that it has stopped. One that could not be started shuts
-- down with 1, whatever events come, and reports that it is stopping and then that it is running.
pub execute_outcome :
    (p : Process) (events : List ScmEvent) (app : App)
    → app.shutting_down ≡ false
    → let (app', started) = start_singleton p app in
      let done = shutdown app' ++ complete ∷ [] in
      execute p events app ≡ (
        if started
        then elim (event_code events) [
          | none ↦ (start_pending ∷ running ∷ answers events, none)
          | some c ↦ (start_pending ∷ running ∷ (answers events ++ stopped ∷ []), some (done, c))
        ]
        else (start_pending ∷ stop_pending ∷ running ∷ stopped ∷ [], some (done, 1)))
unfolding execute start_or_signal block_until_shutdown shutdown signal_shutdown
execute_outcome p events app h =
    let app' = (start_singleton p app).0 in
    let up : app'.shutting_down ≡ false = (start_singleton-keeps p app).0 ∙ h in
    ground (arith, up, execute_loop_lem events app' up)

-- An installation shuts the application down with code 0 exactly if all its steps succeed and the
-- service did not exist, and with 1 otherwise; so does a removal, with the service there.
pub install_outcome :
    (scm : Scm) (app : App)
    → app.shutting_down ≡ false
    → (install_svc scm app
        ≡ down
            (if scm.connects && (not scm.exists && (scm.creates && (scm.sets_flags && scm.starts)))
              then 0
              else 1)
            app)
      × (uninstall_svc scm app
          ≡ down (if scm.connects && (scm.exists && scm.deletes) then 0 else 1) app)
unfolding install_svc uninstall_svc signal_shutdown
install_outcome scm app h = ground arith
