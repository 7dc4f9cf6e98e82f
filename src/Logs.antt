-- ===== src/Logs.antt =====
-- log.go: `SrvLog`. A `LogService` is shared between a logger and the loggers that `WithFields`
-- derives from it, so the services stand in a store and a logger has their places there.
pub mod Names
pub mod Fields
pub mod Proxies
pub mod Order
pub mod Rotate
pub mod Sharing
pub mod Loop
pub mod Locks
pub mod Closing
mod Tests
use srv_app.Base.{
  ℕ, zero, suc, ◌+◌, Bool, true, false, not, List, [], ◌∷◌, ◌++◌, map, Option, none, some, Text,
  codes, length, get_or, ◌==◌, if◌then◌else◌, ℤ,
}
use srv_app.Dict.{lookup, insert, keys}

-- A `log.LogNotify`: its address, and whether it is a `*flog.BufferedLog` and a `log.LogCloser`.
pub record Notifier : Type 0 where
  pub address : ℕ
  pub is_buffered : Bool
  pub is_log_closer : Bool

pub record LogService : Type 0 where
  pub enabled : Bool
  pub notifiers : List Notifier

-- `fields` has the values as they are printed.
pub record SrvLog : Type 0 where
  pub subs : List (Text × ℕ)
  pub fields : List (Text × Text)

abbrev pub Store : Type 0
Store = List LogService

abbrev pub no_service : LogService
no_service = record { enabled = false; notifiers = [] }

abbrev pub service_at : Store → ℕ → LogService
service_at s i = get_or s i no_service

unfoldable pub update_at : ℕ → (LogService → LogService) → Store → Store
update_at i f [] = []
update_at zero f (x ∷ s) = f x ∷ s
update_at (suc i) f (x ∷ s) = x ∷ update_at i f s

abbrev pub with_notifier : Notifier → LogService → LogService
with_notifier n x = record x { notifiers = x.notifiers ++ n ∷ [] }

unfoldable pub add_log : Text → Notifier → SrvLog × Store → SrvLog × Store
unfolding update_at
add_log name new_log (l, s) = elim (lookup name l.subs) [
  | none ↦ (
    record l { subs = insert name (length s) l.subs },
    s ++ record { enabled = true; notifiers = new_log ∷ [] } ∷ [],
  )
  | some i ↦ (l, update_at i (with_notifier new_log) s)
]

abbrev pub debug : Text
debug = codes "debug"

abbrev pub error : Text
error = codes "error"

abbrev pub info : Text
info = codes "info"

-- `log_buffer` is the package's buffer, and `file_log` what `flog.New` returns.
unfoldable pub new_srv_log : Notifier → Notifier → Store → SrvLog × Store
unfolding add_log
new_srv_log log_buffer file_log s =
    let obj : SrvLog × Store = (record { subs = []; fields = [] }, s) in
    let buffered =
      add_log info log_buffer (add_log error log_buffer (add_log debug log_buffer obj)) in
    add_log info file_log (add_log error file_log (add_log debug file_log buffered))

-- The loops that copy a map into another.
unfoldable pub copy_into : {V : Type 0} → List (Text × V) → List (Text × V) → List (Text × V)
copy_into [] m = m
copy_into ((k, v) ∷ l) m = copy_into l (insert k v m)

unfoldable pub with_fields : List (Text × Text) → SrvLog → SrvLog
unfolding copy_into
with_fields fields l = record {
  subs = copy_into l.subs [];
  fields = copy_into fields (copy_into l.fields []);
}

unfoldable pub with_field : Text → Text → SrvLog → SrvLog
unfolding with_fields
with_field key value l = with_fields ((key, value) ∷ []) l

abbrev pub enable : Bool → LogService → LogService
enable val x = record x { enabled = val }

-- The error that is logged for a missing name is left out. (What that call does with the lock is in
-- Logs.Locks.)
unfoldable pub set_logs_enabled : Text → Bool → SrvLog → Store → Store
set_logs_enabled name val l s = elim (lookup name l.subs) [
  | none ↦ s
  | some i ↦ update_at i (enable val) s
]

-- The calls of `SetFlushIntervalSec`, as the addresses of the buffered logs.
unfoldable pub buffered_logs : List Notifier → List ℕ
buffered_logs [] = []
buffered_logs (n ∷ ns) =
    let rest = buffered_logs ns in if n.is_buffered then n.address ∷ rest else rest

unfoldable pub set_flush_interval_sec : Text → ℤ → SrvLog → Store → List (ℕ × ℤ)
unfolding buffered_logs
set_flush_interval_sec name interval l s = elim (lookup name l.subs) [
  | none ↦ []
  | some i ↦ map (λ a. (a, interval)) (buffered_logs (service_at s i).notifiers)
]

-- The notifiers that a service closes, and those that the logger does, by their addresses.
unfoldable pub close_notifiers : List Notifier → List ℕ
close_notifiers [] = []
close_notifiers (n ∷ ns) =
    let rest = close_notifiers ns in if n.is_log_closer then n.address ∷ rest else rest

unfoldable pub close_all : List (Text × ℕ) → Store → List ℕ
unfolding close_notifiers
close_all [] s = []
close_all ((k, i) ∷ subs) s = close_notifiers (service_at s i).notifiers ++ close_all subs s

unfoldable pub close : SrvLog → Store → List ℕ
unfolding close_all
close l s = close_all l.subs s
