-- ===== src/Logs/Locks/Tests.antt =====
-- Two goroutines on the package's logger.
use srv_app.Base.{◌≡◌, refl, ◌⊎◌, true, false, List, [], ◌∷◌, none, some, Text, codes, text_eq, All}
use srv_app.Dict.{lookup, insert}
use srv_app.Logs.{Notifier, SrvLog, new_srv_log, add_log, update_at, debug}
use srv_app.Logs.Locks.{Thread, Step, Steps, done, Call, log_to, rotate}
use srv_app.Logs.Locks.Progress.{is_unfinished}
use srv_app.Logs.Locks.Known.{threads, IsKnown, known_progress}
use srv_app.Logs.Locks.Deadlock.{missing_deadlock}

program : Unit {0}
unfolding new_srv_log add_log update_at lookup insert text_eq
program = tt

abbrev buffer : Notifier
buffer = record { address = 1; is_buffered = false; is_log_closer = false }

abbrev file : Notifier
file = record { address = 2; is_buffered = true; is_log_closer = true }

abbrev logger : SrvLog
logger = (new_srv_log buffer file []).0

abbrev audit : Text
audit = codes "audit"

no_audit : lookup audit logger.subs ≡ none
unfolding program
no_audit = refl

has_error : lookup (codes "error") logger.subs ≡ some 1
unfolding program
has_error = refl

missing_deadlock_example :
    (s : List Thread) × Steps (threads logger ((log_to audit ∷ []) ∷ (rotate ∷ []) ∷ [])) s
    × ((u : List Thread) → ¬ Step s u)
    × (All (λ (t : Thread). is_unfinished t ≡ true) s)
missing_deadlock_example = missing_deadlock logger audit 1 no_audit has_error

abbrev known_calls : List (List Call)
known_calls = (log_to debug ∷ rotate ∷ []) ∷ (rotate ∷ []) ∷ []

debug_known : All (All (IsKnown logger)) known_calls
unfolding program
debug_known = ((refl, (tt, tt)), ((tt, tt), tt))

known_progress_example :
    ((u : List Thread) × Step (threads logger known_calls) u)
    ⊎ All (λ (t : Thread). is_unfinished t ≡ false) (threads logger known_calls)
known_progress_example =
    known_progress logger known_calls (threads logger known_calls) debug_known done
