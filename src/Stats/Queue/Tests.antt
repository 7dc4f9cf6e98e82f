-- ===== src/Stats/Queue/Tests.antt =====
-- Two events, of which the second is stored and the first times out.
use srv_app.Base.{ℕ, ◌+◌, ◌-◌, ◌≡◌, refl, true, [], ◌∷◌, none, some, Text, codes, length, drop}
use srv_app.Mux.Serve.{ReqStatus}
use srv_app.Geo.{GeoIpData, geo_data_local}
use srv_app.Stats.{RequestLog, new_request_log, get_buffer, take_event, store}
use srv_app.Stats.Window.{resolved}
use srv_app.Stats.Queue.{
  Queue, new_queue, received, returned, log, hand_over, put, time_out, signal, stop, Steps, done,
  next,
}
use srv_app.Stats.Queue.Accounts.{count, held, all_logged, all_stored, all_dropped, steps_accounts}

abbrev resolve : ℕ → Text → ℕ × GeoIpData
resolve g host = (g + 1, geo_data_local)

abbrev event : ℕ → RequestLog
event now = new_request_log (codes "10.0.0.1") (codes "/") (codes "/") 2 ReqStatus.success now

abbrev q0 : Queue ℕ
q0 = new_queue 3 0

abbrev both_pending : Queue ℕ
both_pending = record q0 { pending = event 1 ∷ event 2 ∷ [] }

abbrev run_to_pending : Steps resolve q0 both_pending
run_to_pending = next (next done (log (event 1))) (log (event 2))

abbrev last : Queue ℕ
last = record q0 {
  consumer = returned;
  signalled = true;
  geo = 1;
  ring = none ∷ none ∷ some (record (event 2) { geo_data = some geo_data_local }) ∷ [];
}

events_run : Steps resolve q0 last
unfolding take_event store new_request_log
events_run =
    next
      (next
        (next
          (next (next run_to_pending (hand_over (event 1 ∷ []) [] (event 2) refl refl))
            (put (event 2) refl))
          (time_out [] [] (event 1) refl))
        signal)
      (stop refl refl)

steps_accounts_example :
    let events = all_stored resolve q0 events_run in
    (count (λ e. true) (all_logged resolve q0 events_run)
      ≡ count (λ e. true) events
        + (count (λ e. true) (all_dropped resolve q0 events_run)
            + (count (λ e. true) last.pending + count (λ e. true) (held last.consumer))))
    × (get_buffer last.ring ≡ drop (length events - 3) (resolved resolve 0 events))
steps_accounts_example = steps_accounts resolve 3 0 (λ e. true) events_run

abbrev signalled : Queue ℕ
signalled = record both_pending { signalled = true; consumer = received (event 3) }
