-- ===== src/Life/Crash/Safety.antt =====
-- Who panics, and when.
use srv_app.Base.{◌+◌, ◌≡◌, ◌≢◌, ◌≤◌, refl, true, false, arith}
use srv_app.Life.Crash.{
  CrashState, has_read, panicked, Step, request, hand_over, receive_closed, look, act, signal,
  close_chan, send_closed, Steps, done, next,
}

-- The shutdown is signalled, and the goroutine of `catchCrash` neither panics nor has read before that
-- it is not.
abbrev IsCalm : CrashState → Type 0
IsCalm s = (s.shutting_down ≡ true) × (s.catcher ≢ panicked) × (s.catcher ≢ has_read false)

Step-IsCalm : {s t : CrashState} → Step s t → IsCalm s → IsCalm t
Step-IsCalm {s} request h = h
Step-IsCalm {s} (hand_over n a b c) (w, h, k) = (w, λ e. cc, λ e. cc)
Step-IsCalm {s} (receive_closed a b) (w, h, k) = (w, λ e. cc, λ e. cc)
Step-IsCalm {s} (look a) (w, h, k) = (w, λ e. cc, λ e. ground arith)
Step-IsCalm {s} (act true a) (w, h, k) = (w, λ e. cc, λ e. cc)
Step-IsCalm {s} (act false a) (w, h, k) = absurd (k a)
Step-IsCalm {s} signal (w, h, k) = (refl, h, k)
Step-IsCalm {s} (close_chan a b) h = h
Step-IsCalm {s} (send_closed n a b) h = h

-- Once the shutdown is signalled, `catchCrash` never panics any more, on a message of OnCrashUri or on
-- the closing of the channel, unless by then it has panicked or has read that there is no shutdown.
pub steps_calm :
    {s t : CrashState}
    → s.shutting_down ≡ true
    → s.catcher ≢ panicked
    → s.catcher ≢ has_read false
    → Steps s t
    → (t.shutting_down ≡ true) × (t.catcher ≢ panicked) × (t.catcher ≢ has_read false)
steps_calm w h k done = (w, h, k)
steps_calm w h k (next r st) = Step-IsCalm st (steps_calm w h k r)

Step_closed :
    {s t : CrashState}
    → Step s t
    → s.is_closed ≡ true
    → (t.is_closed ≡ true) × (s.senders + s.send_panics ≤ t.senders + t.send_panics)
Step_closed {s} request h = (h, omega arith)
Step_closed {s} (hand_over n a b c) h = absurd (cc)
Step_closed {s} (receive_closed a b) h = (h, omega arith)
Step_closed {s} (look a) h = (h, omega arith)
Step_closed {s} (act b a) h = (h, omega arith)
Step_closed {s} signal h = (h, omega arith)
Step_closed {s} (close_chan a b) h = absurd (cc)
Step_closed {s} (send_closed n a b) h = (h, omega arith)

Steps_closed :
    {s t : CrashState}
    → Steps s t
    → s.is_closed ≡ true
    → (t.is_closed ≡ true) × (s.senders + s.send_panics ≤ t.senders + t.send_panics)
Steps_closed done h = (h, omega arith)
Steps_closed (next r st) h =
    let (closed, sum) = Steps_closed r h in
    let (closed', sum') = Step_closed st closed in (closed', omega arith)

-- A goroutine of OnCrashUri that has not sent when the shutdown closes the channel panics: where none
-- is left afterwards, at least as many more have panicked as there were.
pub senders_panic :
    (s t : CrashState)
    → s.is_closed ≡ true
    → Steps s t
    → t.senders ≡ 0
    → s.send_panics + s.senders ≤ t.send_panics
senders_panic s t h r none_left = let (_, sum) = Steps_closed r h in omega arith
