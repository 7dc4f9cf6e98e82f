-- ===== src/Life/Crash.antt =====
-- srvApp.go and uriHandlers.go: the channel `crashChan`, which has no buffer, between the goroutines
-- of OnCrashUri, the one of `catchCrash`, and `_shutdown`, which closes it.
pub mod Safety
mod Tests
use srv_app.Base.{ℕ, suc, ◌≡◌, Bool, true, false, if◌then◌else◌}

-- Where the goroutine of `catchCrash` stands: at its select, behind the receipt, behind the release of
-- `cfgLock` with the flag that it has read as `isShuttingDown`, at its end, or in the panic "User
-- initiated crash".
pub data Catcher : Type 0 where
  selecting received returned panicked : Catcher
  has_read : Bool → Catcher

-- `senders` counts the goroutines of OnCrashUri that sleep or wait to send, `send_panics` those that
-- panicked because the channel was closed.
pub record CrashState : Type 0 where
  pub shutting_down : Bool
  pub is_closed : Bool
  pub catcher : Catcher
  pub senders : ℕ
  pub send_panics : ℕ

abbrev pub new_crash_state : CrashState
new_crash_state = record {
  shutting_down = false;
  is_closed = false;
  catcher = selecting;
  senders = 0;
  send_panics = 0;
}

-- What `catchCrash` does with the flag that it has read.
abbrev pub looked : Bool → Catcher
looked is_shutting_down = if is_shutting_down then returned else panicked

-- A step: a request for a crash; the hand-over of a message; a receipt from the closed channel; the
-- look at the flag under the lock, and what follows it; `SignalShutdown`; the `close` of `_shutdown`, which follows a signal; and a send
-- on the closed channel.
pub data Step (s : CrashState) : CrashState → Type 0 where
  request : Step s (record s { senders = suc s.senders })
  hand_over :
      (n : ℕ)
      → s.is_closed ≡ false
      → s.catcher ≡ selecting
      → s.senders ≡ suc n
      → Step s (record s { senders = n; catcher = received })
  receive_closed :
      s.is_closed ≡ true → s.catcher ≡ selecting → Step s (record s { catcher = received })
  look : s.catcher ≡ received → Step s (record s { catcher = has_read s.shutting_down })
  act :
      (is_shutting_down : Bool)
      → s.catcher ≡ has_read is_shutting_down
      → Step s (record s { catcher = looked is_shutting_down })
  signal : Step s (record s { shutting_down = true })
  close_chan : s.shutting_down ≡ true → s.is_closed ≡ false → Step s (record s { is_closed = true })
  send_closed :
      (n : ℕ)
      → s.is_closed ≡ true
      → s.senders ≡ suc n
      → Step s (record s { senders = n; send_panics = suc s.send_panics })

pub data Steps (s : CrashState) : CrashState → Type 0 where
  done : Steps s s
  next : {t u : CrashState} → Steps s t → Step t u → Steps s u
