-- ===== src/Logs/Proxies.antt =====
-- log.go: the functions of `SrvLog` that log under a fixed name.
use srv_app.Base.{ℕ, ◌≡◌, refl, Option, some, List, Text, Bool, inl, inr, true, arith, Option-cases}
use srv_app.Dict.{lookup, member}
use srv_app.Logs.{SrvLog, Notifier, Store, service_at}
use srv_app.Logs
use srv_app.Logs.Fields.{log_to, print_to, append_fields}
use srv_app.Logs.Names.{Made, Made-HasNames}

-- The arguments are those of `log_to`.
module _ (fuel : ℕ) (is_own writer_waits : Bool) (srv_log : SrvLog) (s : Store) (l : SrvLog) where
  unfoldable pub debug : Text → Option (List (ℕ × Text))
  unfolding log_to
  debug msg = log_to fuel is_own writer_waits srv_log s l Logs.debug msg

  unfoldable pub error : Text → Option (List (ℕ × Text))
  unfolding log_to
  error msg = log_to fuel is_own writer_waits srv_log s l Logs.error msg

  unfoldable pub info : Text → Option (List (ℕ × Text))
  unfolding log_to
  info msg = log_to fuel is_own writer_waits srv_log s l Logs.info msg

  -- These pass `true` for the argument `local`, which `LogTo` does not read.
  unfoldable pub debug_local : Text → Option (List (ℕ × Text))
  unfolding log_to
  debug_local msg = log_to fuel is_own writer_waits srv_log s l Logs.debug msg

  unfoldable pub error_local : Text → Option (List (ℕ × Text))
  unfolding log_to
  error_local msg = log_to fuel is_own writer_waits srv_log s l Logs.error msg

  unfoldable pub info_local : Text → Option (List (ℕ × Text))
  unfolding log_to
  info_local msg = log_to fuel is_own writer_waits srv_log s l Logs.info msg

module _ (is_own writer_waits : Bool) (srv_log : SrvLog) (s : Store) (l : SrvLog) where
  -- The message, with the logger's fields, goes to the notifiers of the name's service if that is
  -- enabled.
  abbrev pub Prints : Text → Text → Option (List (ℕ × Text)) → Type 0
  Prints name msg out =
      (i : ℕ) × (lookup name l.subs ≡ some i)
      × (out ≡ some (print_to (service_at s i) (append_fields l.fields msg)))

  log_to-Prints :
      (name msg : Text)
      → member name l.subs ≡ true
      → Prints name msg (log_to 1 is_own writer_waits srv_log s l name msg)
  unfolding log_to
  log_to-Prints name msg h = elim (Option-cases (lookup name l.subs)) [
    | inl missing ↦ absurd (ground arith)
    | inr (i, found) ↦ (i, found, ground arith)
  ]

-- A logger that the operations can make logs under each of its three names without calling itself,
-- whatever the package's logger is and whoever waits for its lock, and the functions with `Local` do the same as those without.
pub proxies_print :
    (log_buffer file_log : Notifier) (w : SrvLog × Store)
    → Made log_buffer file_log w
    → (is_own writer_waits : Bool) (srv_log : SrvLog) (msg : Text)
    → let (l, s) = w in
      Prints is_own writer_waits srv_log s l Logs.debug msg
        (debug 1 is_own writer_waits srv_log s l msg)
      × Prints is_own writer_waits srv_log s l Logs.error msg
          (error 1 is_own writer_waits srv_log s l msg)
      × Prints is_own writer_waits srv_log s l Logs.info msg
          (info 1 is_own writer_waits srv_log s l msg)
      × (debug_local 1 is_own writer_waits srv_log s l msg
          ≡ debug 1 is_own writer_waits srv_log s l msg)
      × (error_local 1 is_own writer_waits srv_log s l msg
          ≡ error 1 is_own writer_waits srv_log s l msg)
      × (info_local 1 is_own writer_waits srv_log s l msg
          ≡ info 1 is_own writer_waits srv_log s l msg)
unfolding debug error info debug_local error_local info_local
proxies_print log_buffer file_log (l, s) made is_own writer_waits srv_log msg =
    let (d, e, i) = Made-HasNames log_buffer file_log (l, s) made in
    (
      log_to-Prints is_own writer_waits srv_log s l Logs.debug msg d,
      log_to-Prints is_own writer_waits srv_log s l Logs.error msg e,
      log_to-Prints is_own writer_waits srv_log s l Logs.info msg i,
      refl,
      refl,
      refl,
    )
