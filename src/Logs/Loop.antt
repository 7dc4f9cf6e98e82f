-- ===== src/Logs/Loop.antt =====
-- log.go: the loop of `initLogs`, which rotates the logs every day and on request, and closes them.
pub mod Together
use srv_app.Base.{ℕ, suc, List, [], ◌∷◌, Option}
use srv_app.Logs.{SrvLog, Store, close}
use srv_app.Logs.Rotate.{Rotated, rotate}

-- What the loop receives: a day has passed, a message on `logRotateChan` (of OnRotateLogsUri), or one
-- on `logShutdownChan` (of `closeLogs`).
pub data LogEvent : Type 0 where
  day rotate_request shut_down : LogEvent

-- `rotate_log n` is `flog.Rotate` at the n-th rotation, whose error the loop ignores. `l` is the
-- package's logger. The services that are left, and the logs that were closed.
module _ (rotate_log : ℕ → Rotated → ℕ → Option ℕ) (l : SrvLog) where
  unfoldable pub log_loop : ℕ → List LogEvent → Store → Store × List ℕ
  unfolding rotate close
  log_loop n [] s = (s, [])
  log_loop n (day ∷ es) s = log_loop (suc n) es (rotate (rotate_log n) l s).value
  log_loop n (rotate_request ∷ es) s = log_loop (suc n) es (rotate (rotate_log n) l s).value
  log_loop n (shut_down ∷ es) s = (s, close l s)
