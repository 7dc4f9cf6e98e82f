-- ===== src/Logs/Locks.antt =====
-- log.go: the lock of the package's logger, a `sync.RWMutex`, under goroutines that call its methods.
pub mod Held
pub mod Progress
pub mod Known
pub mod Deadlock
mod Tests
use srv_app.Base.{
  ℕ, zero, suc, ◌+◌, ◌≡◌, Bool, true, false, ◌||◌, List, [], ◌∷◌, ◌++◌, Option, none, some, Text,
}
use srv_app.Dict.{lookup}
use srv_app.Logs.{SrvLog, error}

-- The four methods of the lock.
pub data Op : Type 0 where
  rlock runlock lock unlock : Op

-- A goroutine: what it still does, how often it holds the lock for reading, whether it holds it for
-- writing, and whether it waits in `Lock`.
pub record Thread : Type 0 where
  pub ops : List Op
  pub reads : ℕ
  pub is_writer : Bool
  pub is_waiting : Bool

abbrev pub thread : List Op → Thread
thread ops = record { ops = ops; reads = 0; is_writer = false; is_waiting = false }

abbrev pub total_reads : List Thread → ℕ
total_reads [] = 0
total_reads (t ∷ ts) = t.reads + total_reads ts

abbrev pub has_writer : List Thread → Bool
has_writer [] = false
has_writer (t ∷ ts) = t.is_writer || has_writer ts

abbrev pub has_waiting : List Thread → Bool
has_waiting [] = false
has_waiting (t ∷ ts) = t.is_waiting || has_waiting ts

-- A step of a goroutine among all. As the package sync documents, a `Lock` that waits excludes new
-- readers, so that it gets the lock in the end.
pub data Move (all : List Thread) (t u : Thread) : Type 0 where
  read :
      (ops : List Op)
      → t.ops ≡ rlock ∷ ops
      → has_writer all ≡ false
      → has_waiting all ≡ false
      → u ≡ record t { ops = ops; reads = suc t.reads }
      → Move all t u
  read_end :
      (ops : List Op) (n : ℕ)
      → t.ops ≡ runlock ∷ ops
      → t.reads ≡ suc n
      → u ≡ record t { ops = ops; reads = n }
      → Move all t u
  wait :
      (ops : List Op)
      → t.ops ≡ lock ∷ ops
      → t.is_waiting ≡ false
      → u ≡ record t { is_waiting = true }
      → Move all t u
  write :
      (ops : List Op)
      → t.ops ≡ lock ∷ ops
      → t.is_waiting ≡ true
      → has_writer all ≡ false
      → total_reads all ≡ 0
      → u ≡ record t { ops = ops; is_waiting = false; is_writer = true }
      → Move all t u
  write_end :
      (ops : List Op)
      → t.ops ≡ unlock ∷ ops
      → t.is_writer ≡ true
      → u ≡ record t { ops = ops; is_writer = false }
      → Move all t u

pub data Step (s u : List Thread) : Type 0 where
  pick :
      (l r : List Thread) (a b : Thread) → s ≡ l ++ a ∷ r → u ≡ l ++ b ∷ r → Move s a b → Step s u

pub data Steps (s : List Thread) : List Thread → Type 0 where
  done : Steps s s
  next : {t u : List Thread} → Steps s t → Step t u → Steps s u

-- What `LogTo` of the package's logger `srvLog` does with its lock. For a missing name it calls itself,
-- through `srvLog.Error`, before the deferred `RUnlock`. (A logger of `WithFields` has a lock of its own,
-- which that call does not take; such loggers are not modelled here.)
unfoldable pub log_to_ops : ℕ → SrvLog → Text → List Op
log_to_ops zero srv_log name = []
log_to_ops (suc fuel) srv_log name =
    let nested = log_to_ops fuel srv_log error in
    elim (lookup name srv_log.subs) [
      | none ↦ rlock ∷ (nested ++ runlock ∷ [])
      | some i ↦ rlock ∷ runlock ∷ []
    ]

-- The methods of the package's logger. Those in the last two lines go over all names or none.
pub data Call : Type 0 where
  log_to : Text → Call
  set_logs_enabled set_flush_interval_sec : Text → Call
  rotate add_log : Call
  with_fields close file_log_buffer_cap : Call

-- What a call does with the lock.
unfoldable pub call_ops : SrvLog → Call → List Op
unfolding log_to_ops
call_ops srv_log (log_to name) = log_to_ops 2 srv_log name
call_ops srv_log (set_logs_enabled name) = log_to_ops 2 srv_log name
call_ops srv_log (set_flush_interval_sec name) = log_to_ops 2 srv_log name
call_ops srv_log rotate = lock ∷ unlock ∷ []
call_ops srv_log add_log = lock ∷ unlock ∷ []
call_ops srv_log with_fields = rlock ∷ runlock ∷ []
call_ops srv_log close = rlock ∷ runlock ∷ []
call_ops srv_log file_log_buffer_cap = rlock ∷ runlock ∷ []

unfoldable pub calls_ops : SrvLog → List Call → List Op
unfolding call_ops
calls_ops srv_log [] = []
calls_ops srv_log (c ∷ cs) = call_ops srv_log c ++ calls_ops srv_log cs
