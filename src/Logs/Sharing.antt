-- ===== src/Logs/Sharing.antt =====
-- What a logger and the loggers derived from it share, and what they do not.
use srv_app.Base.{
  ℕ, zero, suc, ◌≡◌, refl, ap, ◌∙◌, Bool, true, false, List, [], ◌∷◌, Option, none, some, Text,
  text_eq_iff, if◌then◌else◌, arith, Option-cases, inl, inr,
}
use srv_app.Dict.{lookup, insert, member, IsMap}
use srv_app.Dict.Laws.{lookup-insert}
use srv_app.Logs.{
  SrvLog, LogService, Notifier, Store, add_log, with_fields, copy_into, update_at, set_logs_enabled,
  service_at, enable,
}
use srv_app.Logs.Fields.{log_to, print_to, append_fields}

-- A copied map has the new values where there are any.
pub lookup-copy_into :
    {V : Type 0} (k : Text) (l m : List (Text × V))
    → IsMap l
    → lookup k (copy_into l m) ≡ (if member k l then lookup k l else lookup k m)
unfolding copy_into lookup
lookup-copy_into k [] m h = refl
lookup-copy_into k ((j, v) ∷ l) m (fresh, h) =
    ground (arith, lookup-copy_into k l (insert j v m) h, lookup-insert j k v m, text_eq_iff j k)

lookup-with_fields :
    (k : Text) (fields : List (Text × Text)) (l : SrvLog)
    → IsMap l.subs
    → lookup k (with_fields fields l).subs ≡ lookup k l.subs
unfolding with_fields lookup
lookup-with_fields k fields l h = ground (arith, lookup-copy_into k l.subs [] h)

lookup-fields :
    (k : Text) (fields : List (Text × Text)) (l : SrvLog)
    → IsMap l.fields
    → IsMap fields
    → lookup k (with_fields fields l).fields
      ≡ (if member k fields then lookup k fields else lookup k l.fields)
unfolding with_fields lookup
lookup-fields k fields l hl hf =
    ground (
      arith,
      lookup-copy_into k fields (copy_into l.fields []) hf,
      lookup-copy_into k l.fields [] hl,
    )

abbrev switch : Store → Bool → Option ℕ → Store
switch s val o = elim o [ none ↦ s | some i ↦ update_at i (enable val) s ]

-- A derived logger has the fields that it is given and behind them those of the logger that it is
-- derived from; and both have the same services: a name of theirs that is switched off, or given
-- another notifier, through the one is so for the other.
with_fields_shared :
    (fields : List (Text × Text)) (l : SrvLog) (s : Store) (k : Text) (val : Bool) (n : Notifier)
    → IsMap l.subs
    → IsMap l.fields
    → IsMap fields
    → member k l.subs ≡ true
    → let d = with_fields fields l in
      (lookup k d.fields ≡ (if member k fields then lookup k fields else lookup k l.fields))
      × (set_logs_enabled k val d s ≡ set_logs_enabled k val l s)
      × ((add_log k n (d, s)).1 ≡ (add_log k n (l, s)).1)
unfolding set_logs_enabled add_log
with_fields_shared fields l s k val n hs hl hf held =
    let same = lookup-with_fields k fields l hs in
    (lookup-fields k fields l hl hf, ap (switch s val) same, ground (arith, same))

enabled_off : (i : ℕ) (s : Store) → (service_at (update_at i (enable false) s) i).enabled ≡ false
unfolding update_at
enabled_off i [] = refl
enabled_off zero (x ∷ s) = refl
enabled_off (suc i) (x ∷ s) = enabled_off i s

print_to_off : (x : LogService) (msg : Text) → x.enabled ≡ false → print_to x msg ≡ []
unfolding print_to
print_to_off x msg h = rw h refl

set_logs_enabled_at :
    (name : Text) (val : Bool) (l : SrvLog) (s : Store) (i : ℕ)
    → lookup name l.subs ≡ some i
    → set_logs_enabled name val l s ≡ update_at i (enable val) s
unfolding set_logs_enabled
set_logs_enabled_at name val l s i found = ap (switch s val) found

log_to_at :
    (fuel : ℕ) (is_own writer_waits : Bool) (srv_log l : SrvLog) (s : Store) (name msg : Text)
    (i : ℕ)
    → lookup name l.subs ≡ some i
    → log_to (suc fuel) is_own writer_waits srv_log s l name msg
      ≡ some (print_to (service_at s i) (append_fields l.fields msg))
unfolding log_to
log_to_at fuel is_own writer_waits srv_log l s name msg i found = ground arith

-- A log that is switched off prints nothing, to whatever notifier, and says so with no error.
pub log_to-set_logs_enabled :
    (fuel : ℕ) (is_own writer_waits : Bool) (srv_log l : SrvLog) (s : Store) (name msg : Text)
    → member name l.subs ≡ true
    → log_to (suc fuel) is_own writer_waits srv_log (set_logs_enabled name false l s) l name msg
      ≡ some []
log_to-set_logs_enabled fuel is_own writer_waits srv_log l s name msg h =
    elim (Option-cases (lookup name l.subs)) [
      | inl missing ↦ absurd (ground arith)
      | inr (i, found) ↦
          log_to_at fuel is_own writer_waits srv_log l (set_logs_enabled name false l s) name msg i
            found
          ∙ ap some (
              print_to_off (service_at (set_logs_enabled name false l s) i)
                (append_fields l.fields msg)
                (ap (λ (t : Store). (service_at t i).enabled)
                    (set_logs_enabled_at name false l s i found)
                  ∙ enabled_off i s))
    ]
