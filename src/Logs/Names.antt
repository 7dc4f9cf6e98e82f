-- ===== src/Logs/Names.antt =====
-- The names that a logger has, and the return of `LogTo`.
use srv_app.Base.{
  ℕ, zero, suc, ◌≡◌, refl, ◌∙◌, inl, inr, Bool, true, false, not, ◌&&◌, ◌||◌, is_none, List, [],
  ◌∷◌, none, Text, text_eq, text_eq_iff, length, arith, Option-cases,
}
use srv_app.Dict.{lookup, insert, member}
use srv_app.Dict.Laws.{lookup-insert}
use srv_app.Logs.{
  SrvLog, Notifier, Store, add_log, new_srv_log, with_fields, copy_into, set_logs_enabled, debug,
  error, info,
}
use srv_app.Logs.Fields.{log_to, missing_logs}

-- A logger and the services that there are, as the operations can make them: the first logger, then
-- additions to it, derived loggers, and switches.
pub data Made (log_buffer file_log : Notifier) : SrvLog × Store → Type 0 where
  first : (s : Store) → Made log_buffer file_log (new_srv_log log_buffer file_log s)
  added :
      {w : SrvLog × Store} (name : Text) (n : Notifier)
      → Made log_buffer file_log w
      → Made log_buffer file_log (add_log name n w)
  derived :
      {w : SrvLog × Store} (fields : List (Text × Text))
      → Made log_buffer file_log w
      → Made log_buffer file_log (with_fields fields w.0, w.1)
  switched :
      {w : SrvLog × Store} (name : Text) (val : Bool)
      → Made log_buffer file_log w
      → Made log_buffer file_log (w.0, set_logs_enabled name val w.0 w.1)

member-insert :
    {V : Type 0} (k j : Text) (v : V) (m : List (Text × V))
    → member j (insert k v m) ≡ (text_eq k j || member j m)
member-insert k j v m = ground (arith, lookup-insert k j v m)

-- An addition keeps the names and has its own.
pub member-add_log :
    (name j : Text) (n : Notifier) (w : SrvLog × Store)
    → member j (add_log name n w).0.subs ≡ (text_eq name j || member j w.0.subs)
unfolding add_log
member-add_log name j n (l, s) =
    ground (arith, member-insert name j (length s) l.subs, text_eq_iff name j)

member-copy_into :
    {V : Type 0} (j : Text) (l m : List (Text × V))
    → member j (copy_into l m) ≡ (member j l || member j m)
unfolding copy_into lookup
member-copy_into j [] m = refl
member-copy_into j ((k, v) ∷ l) m =
    ground (arith, member-copy_into j l (insert k v m), member-insert k j v m)

-- A derived logger has the names of the one that it is derived from.
pub member-with_fields :
    (j : Text) (fields : List (Text × Text)) (l : SrvLog)
    → member j (with_fields fields l).subs ≡ member j l.subs
unfolding with_fields lookup
member-with_fields j fields l = ground (arith, member-copy_into j l.subs [])

abbrev pub HasNames : SrvLog → Type 0
HasNames l =
    (member debug l.subs ≡ true) × (member error l.subs ≡ true) × (member info l.subs ≡ true)

-- Every logger that the operations can make has the three logs.
pub Made-HasNames :
    (log_buffer file_log : Notifier) (w : SrvLog × Store)
    → Made log_buffer file_log w
    → HasNames w.0
unfolding new_srv_log add_log lookup insert text_eq
Made-HasNames b f w (first s) = (refl, refl, refl)
Made-HasNames b f w (added {w = v} name n m) =
    let (d, e, i) = Made-HasNames b f v m in
    (keeps v name n debug d, keeps v name n error e, keeps v name n info i)
  where
    keeps :
        (v : SrvLog × Store) (name : Text) (n : Notifier) (j : Text)
        → member j v.0.subs ≡ true
        → member j (add_log name n v).0.subs ≡ true
    keeps v name n j h = ground (arith, member-add_log name j n v)
Made-HasNames b f w (derived {w = v} fields m) =
    let (d, e, i) = Made-HasNames b f v m in
    (
      member-with_fields debug fields v.0 ∙ d,
      member-with_fields error fields v.0 ∙ e,
      member-with_fields info fields v.0 ∙ i,
    )
Made-HasNames b f w (switched {w = v} name val m) = Made-HasNames b f v m

-- With an error log in the package's logger two rounds are enough, for every name.
pub log_to_returns :
    (fuel : ℕ) (is_own writer_waits : Bool) (srv_log l : SrvLog) (s : Store) (name msg : Text)
    → member error srv_log.subs ≡ true
    → is_none (log_to (suc (suc fuel)) is_own writer_waits srv_log s l name msg)
      ≡ (is_own && (writer_waits && not (member name l.subs)))
unfolding log_to
log_to_returns fuel is_own writer_waits srv_log l s name msg h =
    elim (Option-cases (lookup name l.subs)) [
      | inl missing ↦ elim (Option-cases (lookup error srv_log.subs)) [
        | inl none_there ↦ absurd (ground arith)
        | inr (i, found) ↦ ground arith
      ]
      | inr (i, found) ↦ ground arith
    ]

-- Without an error log in it a message for a missing name is never done, whatever the fuel.
pub log_to_never :
    (fuel : ℕ) (is_own writer_waits : Bool) (srv_log l : SrvLog) (s : Store) (name msg : Text)
    → member error srv_log.subs ≡ false
    → member name l.subs ≡ false
    → log_to fuel is_own writer_waits srv_log s l name msg ≡ none
unfolding log_to
log_to_never zero is_own writer_waits srv_log l s name msg h missing = refl
log_to_never (suc fuel) is_own writer_waits srv_log l s name msg h missing =
    ground
      (arith, log_to_never fuel true writer_waits srv_log srv_log s error (missing_logs name) h h)
