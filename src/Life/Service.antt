-- ===== src/Life/Service.antt =====
-- run_win.go: the application as a Windows service, and the installation of the service.
pub mod Outcome
use srv_app.Base.{
  ℕ, ◌+◌, ◌≡◌, ◌≢◌, refl, Bool, true, false, ◌&&◌, not, List, [], ◌∷◌, ◌++◌, Option, none, some,
  if◌then◌else◌, arith, Bool-cases, inl, inr, ◌↔◌, ap, ◌∙◌,
}
use srv_app.Life.{
  App, Process, Action, signal_shutdown, start_or_signal, start_singleton, block_until_shutdown,
  shutdown, complete,
}

-- `svc.Status`; `current` is the status that the service control manager sent along.
pub data Status : Type 0 where
  start_pending stop_pending running stopped : Status
  current : ℕ → Status

-- What happens while `Execute` is at its select: another goroutine signals the shutdown with an exit
-- code; and what a round receives: that signal, or from the service control manager a request to
-- interrogate, to stop or to shut down, or another.
pub data ScmEvent : Type 0 where
  signalled : ℕ → ScmEvent
  woken : ScmEvent
  interrogate : ℕ → ScmEvent
  stop : ScmEvent
  other : ScmEvent

-- The statuses that are sent, and the state that is left.
unfoldable pub handle_event : ScmEvent → App → List Status × App
unfolding signal_shutdown
handle_event (signalled code) app = ([], signal_shutdown code app)
handle_event woken app = ([], app)
handle_event (interrogate st) app = (current st ∷ [], app)
handle_event stop app = (stop_pending ∷ [], signal_shutdown 0 app)
handle_event other app = ([], app)

-- Whether the event ends the round; what another goroutine does leaves `Execute` at its select, where
-- the signal and a request that is ready are chosen from at random.
abbrev pub ends_round : ScmEvent → Bool
ends_round (signalled code) = false
ends_round _ = true

-- The loop, from its select: `shuttingDown` is looked at between two rounds. Where no event is left
-- and the shutdown is signalled, the signal ends the loop.
unfoldable pub execute_loop : List ScmEvent → App → List Status × App
unfolding handle_event
execute_loop [] app = ([], app)
execute_loop (e ∷ es) app =
    let (sent, app') = handle_event e app in
    let rest = execute_loop es app' in
    if ends_round e && app'.shutting_down then (sent, app') else (sent ++ rest.0, rest.1)

-- `Execute`: the statuses sent so far, and, once the shutdown has been signalled, what is done and the
-- exit code.
unfoldable pub execute : Process → List ScmEvent → App → List Status × Option (List Action × ℕ)
unfolding execute_loop start_or_signal
execute p events app =
    let started = (start_singleton p app).1 in
    let early = if started then [] else stop_pending ∷ [] in
    let up = start_or_signal p app in
    let (sent, app') = if up.shutting_down then ([], up) else execute_loop events up in
    elim (block_until_shutdown app') [
      | none ↦ (start_pending ∷ (early ++ (running ∷ sent)), none)
      | some done ↦ (start_pending ∷ (early ++ (running ∷ (sent ++ stopped ∷ []))), some done)
    ]

-- What the service control manager answers to the steps of `InstallSvc`.
pub record Scm : Type 0 where
  pub connects : Bool
  pub exists : Bool
  pub creates : Bool
  pub sets_flags : Bool
  pub starts : Bool
  pub deletes : Bool

-- `InstallSvc`, without the deferred calls. (The one of `svc.Close` is on a nil service where
-- CreateService fails.)
unfoldable pub install_svc : Scm → App → App
install_svc scm app =
    if not scm.connects
    then signal_shutdown 1 app
    else if scm.exists
    then signal_shutdown 1 app
    else if not scm.creates
    then signal_shutdown 1 app
    else if not scm.sets_flags
    then signal_shutdown 1 app
    else if not scm.starts
    then signal_shutdown 1 app
    else signal_shutdown 0 app

-- `UninstallSvc`
unfoldable pub uninstall_svc : Scm → App → App
uninstall_svc scm app =
    if not scm.connects
    then signal_shutdown 1 app
    else if not scm.exists
    then signal_shutdown 1 app
    else if not scm.deletes
    then signal_shutdown 1 app
    else signal_shutdown 0 app

-- The exit code: that of the first event that signals a shutdown.
abbrev pub event_code : List ScmEvent → Option ℕ
event_code [] = none
event_code (signalled code ∷ es) = some code
event_code (stop ∷ es) = some 0
event_code (woken ∷ es) = event_code es
event_code (interrogate st ∷ es) = event_code es
event_code (other ∷ es) = event_code es

-- What is answered behind a signal of another goroutine: one request at most, the one that the select
-- takes before the signal.
abbrev pub last_answer : List ScmEvent → List Status
last_answer [] = []
last_answer (signalled code ∷ es) = last_answer es
last_answer (woken ∷ es) = []
last_answer (stop ∷ es) = stop_pending ∷ []
last_answer (interrogate st ∷ es) = current st ∷ []
last_answer (other ∷ es) = []

-- The statuses that the service sends, up to a request to stop or to the end behind a signal.
abbrev pub answers : List ScmEvent → List Status
answers [] = []
answers (signalled code ∷ es) = last_answer es
answers (stop ∷ es) = stop_pending ∷ []
answers (woken ∷ es) = answers es
answers (interrogate st ∷ es) = current st ∷ answers es
answers (other ∷ es) = answers es
