-- ===== src/Logs/Closing/Ordered.antt =====
-- The order in which the loop receives the messages.
use srv_app.Base.{ℕ, ◌≡◌, refl, ◌∙◌, sym, List, [], ◌∷◌, ◌++◌, Option, ap, append-nil}
use srv_app.Logs.{SrvLog, Store}
use srv_app.Logs.Rotate.{Rotated}
use srv_app.Logs.Loop.{LogEvent, day, rotate_request, shut_down, log_loop}
use srv_app.Logs.Closing.{
  Loop, selecting, replying, ended, LogChans, new_log_chans, Step, pass_day, ask, receive_request,
  close_logs, receive_close, reply, Steps, done, first,
}

module _ (rotate_log : ℕ → Rotated → ℕ → Option ℕ) (l : SrvLog) where
  -- What the loop receives in a step.
  abbrev pub taken : {s u : LogChans} → Step rotate_log l s u → List LogEvent
  taken (pass_day _) = day ∷ []
  taken ask = []
  taken (receive_request _ _ _) = rotate_request ∷ []
  taken (close_logs _) = []
  taken (receive_close _ _) = shut_down ∷ []
  taken (reply _ _) = []

  -- In the order of the steps.
  abbrev pub received : {s u : LogChans} → Steps rotate_log l s u → List LogEvent
  received done = []
  received (first x r) = taken x ++ received r

  -- What is left, and closed, when the loop receives more.
  after : Loop → ℕ → List LogEvent → Store → List ℕ → Store × List ℕ
  unfolding log_loop
  after selecting n es s closed = let r = log_loop rotate_log l n es s in (r.0, r.1 ++ closed)
  after replying n es s closed = (s, closed)
  after ended n es s closed = (s, closed)

  abbrev outcome : LogChans → List LogEvent → Store × List ℕ
  outcome s es = after s.loop s.rotations es s.store s.closed

  after-nil : (o : Loop) (n : ℕ) (s : Store) (closed : List ℕ) → after o n [] s closed ≡ (s, closed)
  unfolding after log_loop
  after-nil selecting n s closed = refl
  after-nil replying n s closed = refl
  after-nil ended n s closed = refl

  outcome-step :
      {s u : LogChans} (x : Step rotate_log l s u) (es : List LogEvent)
      → outcome s (taken x ++ es) ≡ outcome u es
  unfolding after log_loop
  outcome-step (pass_day w) es = rw w refl
  outcome-step ask es = refl
  outcome-step (receive_request n w p) es = rw w refl
  outcome-step (close_logs w) es = refl
  outcome-step (receive_close w v) es = rw w refl
  outcome-step (reply w v) es = rw w refl

  outcome-received :
      {s u : LogChans} (r : Steps rotate_log l s u) → outcome s (received r) ≡ (u.store, u.closed)
  outcome-received {s} done = after-nil s.loop s.rotations s.store s.closed
  outcome-received (first x r) = outcome-step x (received r) ∙ outcome-received r

  -- However the goroutines that send on the two channels interleave, the loop does what `log_loop` does
  -- with the messages in the order in which it receives them, and leaves the services and has closed the
  -- logs that `log_loop` gives.
  pub steps_log_loop :
      (s : Store) (u : LogChans) (r : Steps rotate_log l (new_log_chans s) u)
      → log_loop rotate_log l 0 (received r) s ≡ (u.store, u.closed)
  unfolding after
  steps_log_loop s u r =
      let e = log_loop rotate_log l 0 (received r) s in
      ap (λ closed. (e.0, closed)) (sym (append-nil e.1)) ∙ outcome-received r
