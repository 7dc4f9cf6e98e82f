-- ===== src/Logs/Locks/Known.antt =====
-- Goroutines that name only logs that there are.
use srv_app.Base.{
  ℕ, suc, ◌≡◌, refl, ap, ◌∙◌, true, false, ◌⊎◌, inl, inr, map, List, [], ◌∷◌, ◌++◌, some, Text, All,
  arith, Option-cases,
}
use srv_app.Dict.{lookup, member}
use srv_app.Logs.{SrvLog}
use srv_app.Logs.Locks.{
  Op, rlock, runlock, Thread, thread, Step, Steps, log_to_ops, Call, log_to, set_logs_enabled,
  set_flush_interval_sec, rotate, add_log, with_fields, close, file_log_buffer_cap, call_ops,
  calls_ops,
}
use srv_app.Logs.Locks.Held.{is_flat, IsOk, idle, Steps-AreOk}
use srv_app.Logs.Locks.Progress.{progress, is_unfinished}

-- The calls of goroutines, at their start.
abbrev pub threads : SrvLog → List (List Call) → List Thread
threads l css = map (λ cs. thread (calls_ops l cs)) css

-- The name of a call, if it has one, has logs.
abbrev pub IsKnown : SrvLog → Call → Type 0
IsKnown l (log_to name) = member name l.subs ≡ true
IsKnown l (set_logs_enabled name) = member name l.subs ≡ true
IsKnown l (set_flush_interval_sec name) = member name l.subs ≡ true
IsKnown l _ = Unit

pub log_to_ops_at :
    (fuel i : ℕ) (l : SrvLog) (name : Text)
    → lookup name l.subs ≡ some i
    → log_to_ops (suc fuel) l name ≡ rlock ∷ runlock ∷ []
unfolding log_to_ops
log_to_ops_at fuel i l name found = ground arith

is_flat-log_to_ops :
    (fuel : ℕ) (l : SrvLog) (name : Text) (rest : List Op)
    → member name l.subs ≡ true
    → is_flat (log_to_ops (suc fuel) l name ++ rest) ≡ is_flat rest
is_flat-log_to_ops fuel l name rest h = elim (Option-cases (lookup name l.subs)) [
  | inl missing ↦ absurd (ground arith)
  | inr (i, found) ↦
      ap (λ (ops : List Op). is_flat (ops ++ rest)) (log_to_ops_at fuel i l name found)
]

is_flat-call_ops :
    (l : SrvLog) (c : Call) (rest : List Op)
    → IsKnown l c
    → is_flat (call_ops l c ++ rest) ≡ is_flat rest
unfolding call_ops
is_flat-call_ops l (log_to name) rest h = is_flat-log_to_ops 1 l name rest h
is_flat-call_ops l (set_logs_enabled name) rest h = is_flat-log_to_ops 1 l name rest h
is_flat-call_ops l (set_flush_interval_sec name) rest h = is_flat-log_to_ops 1 l name rest h
is_flat-call_ops l rotate rest h = refl
is_flat-call_ops l add_log rest h = refl
is_flat-call_ops l with_fields rest h = refl
is_flat-call_ops l close rest h = refl
is_flat-call_ops l file_log_buffer_cap rest h = refl

is_flat-calls_ops :
    (l : SrvLog) (cs : List Call) → All (IsKnown l) cs → is_flat (calls_ops l cs) ≡ true
unfolding calls_ops
is_flat-calls_ops l [] h = refl
is_flat-calls_ops l (c ∷ cs) (known, rest) =
    is_flat-call_ops l c (calls_ops l cs) known ∙ is_flat-calls_ops l cs rest

threads-AreOk :
    (l : SrvLog) (css : List (List Call)) → All (All (IsKnown l)) css → All IsOk (threads l css)
threads-AreOk l [] h = tt
threads-AreOk l (cs ∷ css) (known, rest) =
    (idle (is_flat-calls_ops l cs known) refl refl refl, threads-AreOk l css rest)

-- Any number of goroutines that call the methods of the package's logger, each any methods in any
-- order, on names that have logs, never deadlock on its lock: in every state that they can reach some
-- goroutine can step, or all are finished.
pub known_progress :
    (l : SrvLog) (css : List (List Call)) (s : List Thread)
    → All (All (IsKnown l)) css
    → Steps (threads l css) s
    → ((u : List Thread) × Step s u) ⊎ All (λ (t : Thread). is_unfinished t ≡ false) s
known_progress l css s known r = progress s (Steps-AreOk r (threads-AreOk l css known))
