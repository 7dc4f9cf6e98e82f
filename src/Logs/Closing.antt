-- ===== src/Logs/Closing.antt =====
-- log.go and uriHandlers.go: the channels `logRotateChan` and `logShutdownChan`, which have no
-- buffers, between the goroutine of `initLogs`, those of OnRotateLogsUri, and `closeLogs`.
pub mod Ordered
pub mod Returns
use srv_app.Base.{ℕ, suc, ◌≡◌, List, [], ◌∷◌, ◌++◌, Option}
use srv_app.Logs.{SrvLog, Store, close}
use srv_app.Logs.Rotate.{Rotated, rotate}

-- Where the loop stands: at its select, before its reply on the channel that it got, or at its end.
pub data Loop : Type 0 where
  selecting replying ended : Loop

-- Where `closeLogs` stands: it is not called, waits to send, waits for the reply, or has returned.
pub data Closer : Type 0 where
  idle sending awaiting returned : Closer

-- `requests` counts the handlers that wait to send on `logRotateChan`, `rotations` the calls of
-- `Rotate`; `closed` has the logs that `Close` has closed.
pub record LogChans : Type 0 where
  pub loop : Loop
  pub closer : Closer
  pub requests : ℕ
  pub rotations : ℕ
  pub store : Store
  pub closed : List ℕ

abbrev pub new_log_chans : Store → LogChans
new_log_chans s = record {
  loop = selecting;
  closer = idle;
  requests = 0;
  rotations = 0;
  store = s;
  closed = [];
}

-- `rotate_log` and `l` are those of `log_loop`.
module _ (rotate_log : ℕ → Rotated → ℕ → Option ℕ) (l : SrvLog) where
  -- `srvLog.Rotate()` in the loop.
  abbrev pub rotated : LogChans → LogChans
  rotated s = record s {
    rotations = suc s.rotations;
    store = (rotate (rotate_log s.rotations) l s.store).value;
  }

  -- A step: a day passes; a handler is called; its message is received; `closeLogs` is called; its
  -- channel is received, and the logs are closed; and the reply.
  pub data Step (s : LogChans) : LogChans → Type 0 where
    pass_day : s.loop ≡ selecting → Step s (rotated s)
    ask : Step s (record s { requests = suc s.requests })
    receive_request :
        (n : ℕ)
        → s.loop ≡ selecting
        → s.requests ≡ suc n
        → Step s (record (rotated s) { requests = n })
    close_logs : s.closer ≡ idle → Step s (record s { closer = sending })
    receive_close :
        s.loop ≡ selecting
        → s.closer ≡ sending
        → Step s
            (record s { loop = replying; closer = awaiting; closed = close l s.store ++ s.closed })
    reply :
        s.loop ≡ replying
        → s.closer ≡ awaiting
        → Step s (record s { loop = ended; closer = returned })

  pub data Steps : LogChans → LogChans → Type 0 where
    done : {s : LogChans} → Steps s s
    first : {s t u : LogChans} → Step s t → Steps t u → Steps s u
