-- ===== src/Stats/Queue/Accounts.antt =====
-- What becomes of the events, and what the buffer shows of them.
use srv_app.Base.{
  ℕ, ◌+◌, ◌-◌, ◌≡◌, refl, ap, ◌∙◌, sym, Bool, List, [], ◌∷◌, ◌++◌, Text, length, drop,
  if◌then◌else◌, arith, append-nil,
}
use srv_app.Geo.{GeoIpData}
use srv_app.Stats.{RequestLog, Ring, take_event, take_events, get_buffer}
use srv_app.Stats.Window.{resolved, get_buffer-take_events}
use srv_app.Stats.Queue.{
  Queue, Consumer, selecting, received, returned, new_queue, Step, log, hand_over, put, give_up,
  time_out, signal, stop, Steps, done, next,
}

-- How many events of a list pass a test.
unfoldable pub count : (RequestLog → Bool) → List RequestLog → ℕ
count p [] = 0
count p (e ∷ l) = let rest = count p l in (if p e then 1 else 0) + rest

count-append :
    (p : RequestLog → Bool) (l r : List RequestLog) → count p (l ++ r) ≡ count p l + count p r
unfolding count
count-append p [] r = omega arith
count-append p (e ∷ l) r = ground (arith, count-append p l r)

-- The event that the consumer holds.
abbrev pub held : Consumer → List RequestLog
held selecting = []
held (received e) = e ∷ []
held returned = []

module _ {G : Type 0} (resolve : G → Text → G × GeoIpData) where
  -- The events that are logged, stored and dropped in the steps, in their order.
  abbrev pub logged_by : {q u : Queue G} → Step resolve q u → List RequestLog
  logged_by (log e) = e ∷ []
  logged_by (hand_over l r e w p) = []
  logged_by (put e w) = []
  logged_by (give_up l r e w p) = []
  logged_by (time_out l r e p) = []
  logged_by signal = []
  logged_by (stop w c) = []

  abbrev pub stored_by : {q u : Queue G} → Step resolve q u → List RequestLog
  stored_by (log e) = []
  stored_by (hand_over l r e w p) = []
  stored_by (put e w) = e ∷ []
  stored_by (give_up l r e w p) = []
  stored_by (time_out l r e p) = []
  stored_by signal = []
  stored_by (stop w c) = []

  abbrev pub dropped_by : {q u : Queue G} → Step resolve q u → List RequestLog
  dropped_by (log e) = []
  dropped_by (hand_over l r e w p) = []
  dropped_by (put e w) = []
  dropped_by (give_up l r e w p) = e ∷ []
  dropped_by (time_out l r e p) = e ∷ []
  dropped_by signal = []
  dropped_by (stop w c) = []

  module _ (q : Queue G) where
    abbrev pub all_logged : {u : Queue G} → Steps resolve q u → List RequestLog
    all_logged done = []
    all_logged (next r s) = all_logged r ++ logged_by s

    abbrev pub all_stored : {u : Queue G} → Steps resolve q u → List RequestLog
    all_stored done = []
    all_stored (next r s) = all_stored r ++ stored_by s

    abbrev pub all_dropped : {u : Queue G} → Steps resolve q u → List RequestLog
    all_dropped done = []
    all_dropped (next r s) = all_dropped r ++ dropped_by s

  -- The events that are logged and not yet stored or dropped.
  abbrev open_count : (RequestLog → Bool) → Queue G → ℕ
  open_count p q = count p q.pending + count p (held q.consumer)

  step_count :
      (p : RequestLog → Bool) {q u : Queue G} (s : Step resolve q u)
      → count p (logged_by s) + open_count p q
        ≡ count p (stored_by s) + (count p (dropped_by s) + open_count p u)
  unfolding count
  step_count p {q} (log e) = ground (arith, count-append p q.pending (e ∷ []))
  step_count p {q} (hand_over l r e w h) =
      ground (arith, count-append p l r, count-append p l (e ∷ r), ap (count p) h, ap held w)
  step_count p {q} (put e w) = ground (arith, ap (λ (x : Consumer). count p (held x)) w)
  step_count p {q} (give_up l r e w h) =
      ground (arith, count-append p l r, count-append p l (e ∷ r), ap (count p) h)
  step_count p {q} (time_out l r e h) =
      ground (arith, count-append p l r, count-append p l (e ∷ r), ap (count p) h)
  step_count p {q} signal = omega arith
  step_count p {q} (stop w c) = ground (arith, ap (λ (x : Consumer). count p (held x)) c)

  steps_count :
      (p : RequestLog → Bool) (q : Queue G) {u : Queue G} (r : Steps resolve q u)
      → count p (all_logged q r) + open_count p q
        ≡ count p (all_stored q r) + (count p (all_dropped q r) + open_count p u)
  unfolding count
  steps_count p q done = omega arith
  steps_count p q (next r s) = omega (
    arith,
    steps_count p q r,
    step_count p s,
    count-append p (all_logged q r) (logged_by s),
    count-append p (all_stored q r) (stored_by s),
    count-append p (all_dropped q r) (dropped_by s),
  )

  take_events_snoc :
      (s : G × Ring RequestLog) (l : List RequestLog) (e : RequestLog)
      → take_events resolve s (l ++ e ∷ []) ≡ take_event resolve (take_events resolve s l) e
  unfolding take_events
  take_events_snoc s [] e = refl
  take_events_snoc s (d ∷ l) e = take_events_snoc (take_event resolve s d) l e

  -- The buffer and the cache of countries, as one state of the loop.
  abbrev kept : Queue G → G × Ring RequestLog
  kept q = (q.geo, q.ring)

  step_kept :
      (s : G × Ring RequestLog) (l : List RequestLog) {q u : Queue G} (st : Step resolve q u)
      → kept q ≡ take_events resolve s l
      → kept u ≡ take_events resolve s (l ++ stored_by st)
  step_kept s l {q} (put e w) h =
      ap (λ (k : G × Ring RequestLog). take_event resolve k e) h ∙ sym (take_events_snoc s l e)
  step_kept s l (log e) h = rw (append-nil l) h
  step_kept s l (hand_over a b e w p) h = rw (append-nil l) h
  step_kept s l (give_up a b e w p) h = rw (append-nil l) h
  step_kept s l (time_out a b e p) h = rw (append-nil l) h
  step_kept s l signal h = rw (append-nil l) h
  step_kept s l (stop w c) h = rw (append-nil l) h

  steps_kept :
      (q : Queue G) {u : Queue G} (r : Steps resolve q u)
      → kept u ≡ take_events resolve (kept q) (all_stored q r)
  unfolding take_events
  steps_kept q done = refl
  steps_kept q (next r s) = step_kept (kept q) (all_stored q r) s (steps_kept q r)

  -- Whatever the order of the goroutines' steps: every event that was logged is stored, dropped, held
  -- by the consumer or pending, each exactly once; and the buffer of capacity `n` shows the last `n`
  -- of the stored ones, the oldest first, each with its country.
  pub steps_accounts :
      (n : ℕ) (g : G) (p : RequestLog → Bool) {u : Queue G} (r : Steps resolve (new_queue n g) u)
      → let events = all_stored (new_queue n g) r in
        (count p (all_logged (new_queue n g) r)
          ≡ count p events
            + (count p (all_dropped (new_queue n g) r)
                + (count p u.pending + count p (held u.consumer))))
        × (get_buffer u.ring ≡ drop (length events - n) (resolved resolve g events))
  steps_accounts n g p r =
      let q = new_queue n g in
      (
        unfold count in omega (arith, steps_count p q r),
        ap (λ (k : G × Ring RequestLog). get_buffer k.1) (steps_kept q r)
            ∙ get_buffer-take_events resolve n g (all_stored q r),
      )
