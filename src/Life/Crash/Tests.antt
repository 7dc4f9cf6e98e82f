-- ===== src/Life/Crash/Tests.antt =====
-- A request for a crash during the shutdown.
use srv_app.Base.{◌+◌, ◌≡◌, ◌≢◌, ◌≤◌, refl, true, false}
use srv_app.Life.Crash.{
  CrashState, has_read, returned, panicked, new_crash_state, request, hand_over, receive_closed,
  look, act, close_chan, send_closed, Steps, done, next,
}
use srv_app.Life.Crash.Safety.{steps_calm, senders_panic}

abbrev asked : CrashState
asked = record new_crash_state { senders = 1 }

crash_run : Steps new_crash_state (record new_crash_state { catcher = panicked })
crash_run =
    next (next (next (next done request) (hand_over 0 refl refl refl)) (look refl)) (act false refl)

abbrev down : CrashState
down = record asked { shutting_down = true }

abbrev closed : CrashState
closed = record down { is_closed = true }

abbrev over : CrashState
over = record closed { senders = 0; send_panics = 1; catcher = returned }

closed_run : Steps closed over
closed_run =
    next (next (next (next done (receive_closed refl refl)) (send_closed 0 refl refl)) (look refl))
      (act true refl)

down_calm : down.catcher ≢ panicked
down_calm e = cc

down_unread : down.catcher ≢ has_read false
down_unread e = cc

steps_calm_example :
    (over.shutting_down ≡ true) × (over.catcher ≢ panicked) × (over.catcher ≢ has_read false)
steps_calm_example = steps_calm {s = down} refl down_calm down_unread (
    next
      (next
        (next (next (next done (close_chan refl refl)) (receive_closed refl refl))
          (send_closed 0 refl refl))
        (look refl))
      (act true refl))

senders_panic_example : 0 + 1 ≤ 1
senders_panic_example = senders_panic closed over refl closed_run refl
