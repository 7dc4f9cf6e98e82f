-- ===== src/Logs/Fields.antt =====
-- log.go: `LogTo` and the fields that it appends to a message.
use srv_app.Base.{
  ℕ, zero, suc, Bool, true, false, ◌&&◌, List, [], ◌∷◌, ◌++◌, map, Option, none, some, Text, codes,
  if◌then◌else◌,
}
use srv_app.Dict.{lookup, keys}
use srv_app.Sorting.{sort_strings}
use srv_app.Logs.{SrvLog, LogService, Notifier, Store, service_at, error}

abbrev pub value_of : Option Text → Text
value_of none = []
value_of (some v) = v

-- The loop over the sorted keys; `first` says that the index is 0.
unfoldable pub field_text : Bool → List (Text × Text) → List Text → Text
field_text first fields [] = []
field_text first fields (key ∷ ks) =
    (if first then [] else codes ",")
    ++ (codes " " ++ (key ++ (codes "=" ++ value_of (lookup key fields))))
    ++ field_text false fields ks

unfoldable pub append_fields : List (Text × Text) → Text → Text
unfolding field_text sort_strings
append_fields fields msg = msg ++ field_text true fields (sort_strings (keys fields))

abbrev pub missing_logs : Text → Text
missing_logs name = codes "Couldn't log to " ++ (name ++ codes " logs. Loggers missing.")

-- The messages that a service prints, with the address of the notifier.
unfoldable pub print_to : LogService → Text → List (ℕ × Text)
print_to x msg = if x.enabled then map (λ (n : Notifier). (n.address, msg)) x.notifiers else []

-- `LogTo` with its message formatted, under the lock of the logger `l`. Where the name is missing it
-- calls itself, for the error log of the package's logger `srv_log`, while it holds that lock for
-- reading. `is_own` says that `l` is the package's logger, so that the call takes the same lock again,
-- and `writer_waits` that a `Rotate` or an `AddLog` has come to wait for the package's lock in between:
-- then the call waits for it and it waits for the first reader. (On the lock of another logger the call
-- waits for the writer to be done only.) None where the call waits for ever or the fuel is used up.
unfoldable pub log_to :
    ℕ → Bool → Bool → SrvLog → Store → SrvLog → Text → Text → Option (List (ℕ × Text))
unfolding print_to append_fields
log_to zero is_own writer_waits srv_log s l name msg = none
log_to (suc fuel) is_own writer_waits srv_log s l name msg = elim (lookup name l.subs) [
  | none ↦ elim (is_own && writer_waits) [
    | true ↦ none
    | false ↦ log_to fuel true writer_waits srv_log s srv_log error (missing_logs name)
  ]
  | some i ↦ some (print_to (service_at s i) (append_fields l.fields msg))
]
