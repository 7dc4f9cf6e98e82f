-- ===== src/Logs/Closing/Returns.antt =====
-- The return of `closeLogs`, and a request after it.
use srv_app.Base.{ℕ, ◌≡◌, refl, ◌∙◌, List, [], ◌++◌, Option, ap, arith, ◌≤◌, ◌≢◌, append-nil}
use srv_app.Logs.{SrvLog, Store, close}
use srv_app.Logs.Rotate.{Rotated}
use srv_app.Logs.Closing.{
  Loop, selecting, replying, ended, Closer, idle, sending, awaiting, returned, LogChans,
  new_log_chans, rotated, Step, pass_day, ask, receive_request, close_logs, receive_close, reply,
  Steps, done, first,
}

module _ (rotate_log : ℕ → Rotated → ℕ → Option ℕ) (l : SrvLog) where
  -- Where the loop and `closeLogs` stand together, and what is closed then.
  Standing : Closer → Loop → Store → List ℕ → Type 0
  Standing idle selecting s closed = closed ≡ []
  Standing sending selecting s closed = closed ≡ []
  Standing awaiting replying s closed = closed ≡ close l s
  Standing returned ended s closed = closed ≡ close l s
  Standing _ _ s closed = ⊥

  Standing-rotated :
      (c : Closer) (s t : Store) (closed : List ℕ)
      → Standing c selecting s closed
      → Standing c selecting t closed
  unfolding Standing
  Standing-rotated idle s t closed h = h
  Standing-rotated sending s t closed h = h
  Standing-rotated awaiting s t closed h = elim h [ ]
  Standing-rotated returned s t closed h = elim h [ ]

  Standing-called :
      (o : Loop) (s : Store) (closed : List ℕ)
      → Standing idle o s closed
      → Standing sending o s closed
  unfolding Standing
  Standing-called selecting s closed h = h
  Standing-called replying s closed h = elim h [ ]
  Standing-called ended s closed h = elim h [ ]

  IsStanding : LogChans → Type 0
  IsStanding s = Standing s.closer s.loop s.store s.closed

  Step-IsStanding : {s u : LogChans} → Step rotate_log l s u → IsStanding s → IsStanding u
  unfolding IsStanding Standing
  Step-IsStanding {s} (pass_day w) h =
      rw w (Standing-rotated s.closer s.store (rotated rotate_log l s).store s.closed (rw w at h))
  Step-IsStanding {s} ask h = h
  Step-IsStanding {s} (receive_request n w p) h =
      rw w (Standing-rotated s.closer s.store (rotated rotate_log l s).store s.closed (rw w at h))
  Step-IsStanding {s} (close_logs w) h = Standing-called s.loop s.store s.closed (rw w at h)
  Step-IsStanding {s} (receive_close w v) h =
      ap (λ x. close l s.store ++ x) (rw (w, v) at h) ∙ append-nil _
  Step-IsStanding {s} (reply w v) h = rw (w, v) at h

  Steps-IsStanding : {s u : LogChans} → Steps rotate_log l s u → IsStanding s → IsStanding u
  Steps-IsStanding done h = h
  Steps-IsStanding (first x r) h = Steps-IsStanding r (Step-IsStanding x h)

  -- The rest of the way of `closeLogs`, from where the two stand.
  returns_from :
      (c : Closer) (o : Loop) (u : LogChans)
      → u.closer ≡ c
      → u.loop ≡ o
      → Standing c o u.store u.closed
      → c ≢ idle
      → (v : LogChans) × Steps rotate_log l u v
        × (v.closer ≡ returned)
        × (v.closed ≡ close l u.store)
        × (v.requests ≡ u.requests)
        × (v.store ≡ u.store)
  unfolding Standing
  returns_from idle o u e w h called = absurd (called refl)
  returns_from sending selecting u e w h called = (
    _,
    first (receive_close w e) (first (reply refl refl) done),
    refl,
    ap (λ x. close l u.store ++ x) h ∙ append-nil _,
    refl,
    refl,
  )
  returns_from sending replying u e w h called = elim h [ ]
  returns_from sending ended u e w h called = elim h [ ]
  returns_from awaiting selecting u e w h called = elim h [ ]
  returns_from awaiting replying u e w h called = (_, first (reply w e) done, refl, h, refl, refl)
  returns_from awaiting ended u e w h called = elim h [ ]
  returns_from returned selecting u e w h called = elim h [ ]
  returns_from returned replying u e w h called = elim h [ ]
  returns_from returned ended u e w h called = (u, done, e, h, refl, refl)

  -- Once `closeLogs` is called, there are steps to its return in whatever state the goroutines are, in
  -- which no handler is served and the services stay; and the logs that are closed then are those of the
  -- logger.
  pub close_logs_returns :
      (s : Store) (u : LogChans)
      → Steps rotate_log l (new_log_chans s) u
      → u.closer ≢ idle
      → (v : LogChans) × Steps rotate_log l u v
        × (v.closer ≡ returned)
        × (v.closed ≡ close l u.store)
        × (v.requests ≡ u.requests)
        × (v.store ≡ u.store)
  unfolding IsStanding Standing
  close_logs_returns s u r called =
      returns_from u.closer u.loop u refl refl (Steps-IsStanding r refl) called

  Step_ended :
      {s u : LogChans}
      → Step rotate_log l s u
      → s.loop ≡ ended
      → (u.loop ≡ ended)
        × (u.rotations ≡ s.rotations)
        × (s.requests ≤ u.requests)
        × (u.store ≡ s.store)
  Step_ended (pass_day w) e = absurd cc
  Step_ended ask e = (e, refl, omega arith, refl)
  Step_ended (receive_request n w p) e = absurd cc
  Step_ended (close_logs w) e = (e, refl, omega arith, refl)
  Step_ended (receive_close w v) e = absurd cc
  Step_ended (reply w v) e = absurd cc

  -- After the loop has ended, no handler of OnRotateLogsUri that waits to send on `logRotateChan`, or
  -- that is called later, is ever served: as many wait, and there is no rotation.
  requests_wait :
      (s u : LogChans)
      → s.loop ≡ ended
      → Steps rotate_log l s u
      → (u.loop ≡ ended)
        × (u.rotations ≡ s.rotations)
        × (s.requests ≤ u.requests)
        × (u.store ≡ s.store)
  requests_wait s u e done = (e, refl, omega arith, refl)
  requests_wait s u e (first x r) =
      let (e', n, m, k) = Step_ended x e in
      let (e'', n', m', k') = requests_wait _ u e' r in (e'', n' ∙ n, omega arith, k' ∙ k)
