-- ===== src/Life/Shutdown.antt =====
-- Signals, and what a shutdown does.
use srv_app.Base.{
  ℕ, ◌+◌, ◌≡◌, refl, Bool, true, false, not, List, [], ◌∷◌, ◌++◌, Option, none, some, if◌then◌else◌,
  arith, ap, ◌∙◌, append_assoc, append-nil,
}
use srv_app.Life.{
  App, Process, Action, notify, net_shutdown, ini_shutdown, close_crash_chan, delete_pid_file,
  close_logs, complete, signal_shutdown, signals, start_singleton, start_or_signal, notify_shutdown,
  shutdown, block_until_shutdown, run,
}

signals_after : (codes : List ℕ) (app : App) → app.shutting_down ≡ true → signals codes app ≡ app
unfolding signals
signals_after [] app h = refl
signals_after (c ∷ cs) app h =
    let same : signal_shutdown c app ≡ app = unfold signal_shutdown in ground arith in
    ap (signals cs) same ∙ signals_after cs app h

-- Of any number of signals only the first counts: it sets the exit code and starts the shutdown,
-- once, and the rest of the state stays.
pub signals_first :
    (c : ℕ) (cs : List ℕ) (app : App)
    → app.shutting_down ≡ false
    → signals (c ∷ cs) app
      ≡ record app { shutting_down = true; exit_code = c; started = app.started + 1 }
unfolding signals signal_shutdown
signals_first c cs app h = rw h (
    signals_after cs (record app { shutting_down = true; exit_code = c; started = app.started + 1 })
      refl)

-- The subscribers that a shutdown calls.
abbrev pub notified : List Action → List ℕ
notified [] = []
notified (notify f ∷ l) = f ∷ notified l
notified (_ ∷ l) = notified l

notified-notify_shutdown :
    (fs : List ℕ) (rest : List Action) → notified (notify_shutdown fs ++ rest) ≡ fs ++ notified rest
unfolding notify_shutdown
notified-notify_shutdown [] rest = refl
notified-notify_shutdown (f ∷ fs) rest = ap (◌∷◌ f) (notified-notify_shutdown fs rest)

abbrev pub deletes_pid : List Action → Bool
deletes_pid [] = false
deletes_pid (delete_pid_file ∷ l) = true
deletes_pid (_ ∷ l) = deletes_pid l

deletes_pid-notify_shutdown :
    (fs : List ℕ) (rest : List Action) → deletes_pid (notify_shutdown fs ++ rest) ≡ deletes_pid rest
unfolding notify_shutdown
deletes_pid-notify_shutdown [] rest = refl
deletes_pid-notify_shutdown (f ∷ fs) rest = deletes_pid-notify_shutdown fs rest

-- The code that `run` returns: 1 where the application could not be started, else that of the first
-- signal; none while there is no signal.
abbrev pub first_code : Bool → List ℕ → Option ℕ
first_code false codes = some 1
first_code true [] = none
first_code true (c ∷ cs) = some c

pub start_singleton-keeps :
    (p : Process) (app : App)
    → let app' = (start_singleton p app).0 in
      (app'.shutting_down ≡ app.shutting_down) × (app'.shutdown_subs ≡ app.shutdown_subs)
unfolding start_singleton
start_singleton-keeps p app = ground arith

run_started :
    (app : App) (started : Bool) (codes : List ℕ)
    → app.shutting_down ≡ false
    → block_until_shutdown (signals codes (if not started then signal_shutdown 1 app else app))
      ≡ elim (first_code started codes) [
        | none ↦ none
        | some c ↦ some (shutdown app ++ complete ∷ [], c)
      ]
unfolding block_until_shutdown shutdown
run_started app false codes h =
    let started : App = record app {
      shutting_down = true;
      exit_code = 1;
      started = app.started + 1;
    } in
    let same : signal_shutdown 1 app ≡ started = unfold signal_shutdown in ground arith in
    ap (λ (a : App). block_until_shutdown (signals codes a)) same
    ∙ ap block_until_shutdown (signals_after codes started refl)
run_started app true [] h = unfold signals in rw h
run_started app true (c ∷ cs) h = ap block_until_shutdown (signals_first c cs app h)

-- An application that is not shutting down runs until the first signal and returns its code, and
-- returns 1 whatever is signalled if it could not be started; then all of the shutdown is done, over
-- the state that the start left.
pub run_outcome :
    (p : Process) (codes : List ℕ) (app : App)
    → app.shutting_down ≡ false
    → let (app', started) = start_singleton p app in
      run p codes app ≡ elim (first_code started codes) [
        | none ↦ none
        | some c ↦ some (shutdown app' ++ complete ∷ [], c)
      ]
unfolding run start_or_signal
run_outcome p codes app h =
    run_started (start_singleton p app).0 (start_singleton p app).1 codes
      ((start_singleton-keeps p app).0 ∙ h)

-- What follows the calls of the subscribers.
abbrev pub after_subs : Bool → List Action
after_subs clean =
    (net_shutdown
      ∷ ini_shutdown
      ∷ close_crash_chan
      ∷ ((if clean then delete_pid_file ∷ [] else []) ++ close_logs ∷ []))
    ++ complete ∷ []

rest_notified : (clean : Bool) → notified (after_subs clean) ≡ []
rest_notified true = refl
rest_notified false = refl

rest_deletes : (clean : Bool) → deletes_pid (after_subs clean) ≡ clean
rest_deletes true = refl
rest_deletes false = refl

shutdown_lem :
    (app : App)
    → let done = shutdown app ++ complete ∷ [] in
      (notified done ≡ app.shutdown_subs) × (deletes_pid done ≡ app.clean_pid)
unfolding shutdown
shutdown_lem app = (
  ap notified (append_assoc (notify_shutdown app.shutdown_subs) _ (complete ∷ []))
      ∙ notified-notify_shutdown app.shutdown_subs (after_subs app.clean_pid)
      ∙ ap (λ (l : List ℕ). app.shutdown_subs ++ l) (rest_notified app.clean_pid)
      ∙ append-nil app.shutdown_subs,
  ap deletes_pid (append_assoc (notify_shutdown app.shutdown_subs) _ (complete ∷ []))
      ∙ deletes_pid-notify_shutdown app.shutdown_subs (after_subs app.clean_pid)
      ∙ rest_deletes app.clean_pid,
)

abbrev after_start : List ℕ → App × Bool → Option (List Action × ℕ)
after_start codes r = elim (first_code r.1 codes) [
  | none ↦ none
  | some c ↦ some (shutdown r.0 ++ complete ∷ [], c)
]

-- Where another instance runs, `run` returns 1 whatever is signalled, calls the subscribers in
-- the order of their subscription, and leaves the PID file of the other instance alone.
run_second_instance :
    (p : Process) (codes : List ℕ) (app : App) (pid : ℕ)
    → app.shutting_down ≡ false
    → p.run_status ≡ some pid
    → (done : List Action) × (run p codes app ≡ some (done, 1))
      × (notified done ≡ app.shutdown_subs)
      × (deletes_pid done ≡ false)
unfolding start_singleton
run_second_instance p codes app pid h other =
    let app' : App = record app { app_process = some pid; clean_pid = false } in
    let second : start_singleton p app ≡ (app', false) = ground arith in
    (
      shutdown app' ++ complete ∷ [],
      run_outcome p codes app h ∙ ap (after_start codes) second,
      (shutdown_lem app').0,
      (shutdown_lem app').1,
    )
