-- ===== src/Logs/Locks/Deadlock.antt =====
-- A message for a name that has no logs, and a rotation.
use srv_app.Base.{
  ℕ, ◌≡◌, refl, ap, sym, subst, true, false, List, [], ◌∷◌, ◌++◌, none, some, Text, All, arith,
}
use srv_app.Dict.{lookup}
use srv_app.Logs.{SrvLog, error}
use srv_app.Logs.Locks.{
  Op, rlock, runlock, lock, unlock, Thread, thread, Move, read, read_end, wait, write, write_end,
  Step, pick, Steps, done, next, log_to_ops, log_to, rotate, call_ops, calls_ops,
}
use srv_app.Logs.Locks.Known.{threads}
use srv_app.Logs.Locks.Progress.{is_unfinished}

-- `LogTo` holds the lock for reading and wants it again, `Rotate` waits for it.
abbrev nested : Thread
nested = record {
  ops = rlock ∷ runlock ∷ runlock ∷ [];
  reads = 1;
  is_writer = false;
  is_waiting = false;
}

abbrev writer : Thread
writer = record { ops = lock ∷ unlock ∷ []; reads = 0; is_writer = false; is_waiting = true }

abbrev locked : List Thread
locked = nested ∷ writer ∷ []

nested_stuck : (a b : Thread) → a ≡ nested → ¬ Move locked a b
nested_stuck a b same (read ops o no_writer no_waiting e) = cc
nested_stuck a b same (read_end ops n o r e) = cc (ap (λ (t : Thread). t.ops) same)
nested_stuck a b same (wait ops o w e) = cc (ap (λ (t : Thread). t.ops) same)
nested_stuck a b same (write ops o w no_writer free e) = cc (ap (λ (t : Thread). t.ops) same)
nested_stuck a b same (write_end ops o w e) = cc (ap (λ (t : Thread). t.ops) same)

writer_stuck : (a b : Thread) → a ≡ writer → ¬ Move locked a b
writer_stuck a b same (read ops o no_writer no_waiting e) = cc
writer_stuck a b same (read_end ops n o r e) = cc (ap (λ (t : Thread). t.ops) same)
writer_stuck a b same (wait ops o w e) = cc (ap (λ (t : Thread). t.is_waiting) same)
writer_stuck a b same (write ops o w no_writer free e) = absurd (omega (arith, free))
writer_stuck a b same (write_end ops o w e) = cc (ap (λ (t : Thread). t.ops) same)

head_of : List Thread → Thread
head_of [] = nested
head_of (t ∷ s) = t

tail_of : List Thread → List Thread
tail_of [] = []
tail_of (t ∷ s) = s

locked_stuck : (u : List Thread) → ¬ Step locked u
unfolding head_of tail_of
locked_stuck u (pick [] r a b e e' move) = nested_stuck a b (sym (ap head_of e)) move
locked_stuck u (pick (x ∷ []) r a b e e' move) =
    writer_stuck a b (sym (ap (λ (s : List Thread). head_of (tail_of s)) e)) move
locked_stuck u (pick (x ∷ y ∷ []) r a b e e' move) =
    cc (ap (λ (s : List Thread). tail_of (tail_of s)) e)
locked_stuck u (pick (x ∷ y ∷ z ∷ l) r a b e e' move) =
    cc (ap (λ (s : List Thread). tail_of (tail_of s)) e)

nested_ops :
    (l : SrvLog) (name : Text) (i : ℕ)
    → lookup name l.subs ≡ none
    → lookup error l.subs ≡ some i
    → log_to_ops 2 l name ≡ rlock ∷ rlock ∷ runlock ∷ runlock ∷ []
unfolding log_to_ops
nested_ops l name i missing found = ground arith

deadlock_run :
    Steps
      (thread (rlock ∷ rlock ∷ runlock ∷ runlock ∷ []) ∷ thread (lock ∷ unlock ∷ []) ∷ [])
      locked
deadlock_run =
    next
      (next done (
        pick [] (thread (lock ∷ unlock ∷ []) ∷ []) (thread (rlock ∷ rlock ∷ runlock ∷ runlock ∷ []))
          nested refl refl (read (rlock ∷ runlock ∷ runlock ∷ []) refl refl refl refl)))
      (pick (nested ∷ []) [] (thread (lock ∷ unlock ∷ [])) writer refl refl
        (wait (unlock ∷ []) refl refl refl))

-- On the package's logger, if it has an error log: a goroutine that logs to a name that the logger does
-- not have, and one that rotates its logs, can reach a state in which neither can ever step again and
-- both hold or await the lock of the logger: `LogTo` asks for it a second time while `Rotate` waits.
pub missing_deadlock :
    (l : SrvLog) (name : Text) (i : ℕ)
    → lookup name l.subs ≡ none
    → lookup error l.subs ≡ some i
    → (s : List Thread) × Steps (threads l ((log_to name ∷ []) ∷ (rotate ∷ []) ∷ [])) s
      × ((u : List Thread) → ¬ Step s u)
      × (All (λ (t : Thread). is_unfinished t ≡ true) s)
unfolding calls_ops call_ops
missing_deadlock l name i missing found =
    let ops = nested_ops l name i missing found in
    (
      locked,
      subst (λ (o : List Op). Steps (thread (o ++ []) ∷ thread (lock ∷ unlock ∷ []) ∷ []) locked)
          (sym ops) deadlock_run,
      locked_stuck,
      (refl, (refl, tt)),
    )
