-- ===== src/Logs/Locks/Progress.antt =====
-- Whether such goroutines can step.
use srv_app.Base.{
  ◌≡◌, refl, ap, subst, Bool, true, false, ◌||◌, not, ◌⊎◌, inl, inr, List, [], ◌∷◌, ◌++◌, All,
  arith, ltb, Bool-cases,
}
use srv_app.Logs.Locks.{
  Op, rlock, runlock, lock, unlock, Thread, total_reads, has_writer, has_waiting, Move, read,
  read_end, wait, write, write_end, Step, pick,
}
use srv_app.Logs.Locks.Held.{is_flat, IsOk, idle, reading, waiting, writing, All-middle}

-- The first goroutine that passes a test, or none does.
find :
    (p : Thread → Bool) (s : List Thread)
    → ((l : List Thread) × (r : List Thread) × (a : Thread) × (s ≡ l ++ a ∷ r) × (p a ≡ true))
      ⊎ All (λ (t : Thread). p t ≡ false) s
find p [] = inr tt
find p (t ∷ s) = elim (Bool-cases (p t)) [
  | inl here ↦ inl ([], s, t, refl, here)
  | inr not_here ↦ elim (find p s) [
    | inl (l, r, a, e, there) ↦ inl (t ∷ l, r, a, ap (◌∷◌ t) e, there)
    | inr nowhere ↦ inr (not_here, nowhere)
  ]
]

abbrev holds_lock : Thread → Bool
holds_lock t = t.is_writer || ltb 0 t.reads

abbrev waits : Thread → Bool
waits t = t.is_waiting

abbrev pub is_empty : List Op → Bool
is_empty [] = true
is_empty (x ∷ l) = false

abbrev pub is_unfinished : Thread → Bool
is_unfinished t = not (is_empty t.ops)

none_hold :
    (s : List Thread)
    → All (λ (t : Thread). holds_lock t ≡ false) s
    → (total_reads s ≡ 0) × (has_writer s ≡ false)
none_hold [] h = (refl, refl)
none_hold (t ∷ s) (here, rest) = let (reads, writer) = none_hold s rest in ground arith

none_wait : (s : List Thread) → All (λ (t : Thread). waits t ≡ false) s → has_waiting s ≡ false
none_wait [] h = refl
none_wait (t ∷ s) (here, rest) = let later = none_wait s rest in ground arith

holder_moves :
    (s : List Thread) (a : Thread) → IsOk a → holds_lock a ≡ true → (b : Thread) × Move s a b
holder_moves s a (idle f r w g) h = absurd (ground arith)
holder_moves s a (reading ops o f r w g) h = (_, read_end ops 0 o r refl)
holder_moves s a (waiting ops o f r w g) h = absurd (ground arith)
holder_moves s a (writing ops o f r w g) h = (_, write_end ops o w refl)

waiting_moves :
    (s : List Thread) (a : Thread)
    → IsOk a
    → waits a ≡ true
    → total_reads s ≡ 0
    → has_writer s ≡ false
    → (b : Thread) × Move s a b
waiting_moves s a (waiting ops o f r w g) h reads writer =
    (_, write (unlock ∷ ops) o g writer reads refl)
waiting_moves s a (idle f r w g) h reads writer = absurd (cc)
waiting_moves s a (reading ops o f r w g) h reads writer = absurd (cc)
waiting_moves s a (writing ops o f r w g) h reads writer = absurd (cc)

idle_moves :
    (s : List Thread) (a : Thread) (ops : List Op)
    → a.ops ≡ ops
    → is_empty ops ≡ false
    → is_flat ops ≡ true
    → a.is_waiting ≡ false
    → has_writer s ≡ false
    → has_waiting s ≡ false
    → (b : Thread) × Move s a b
idle_moves s a [] e h f g writer waiter = cc
idle_moves s a (rlock ∷ ops) e h f g writer waiter = (_, read ops e writer waiter refl)
idle_moves s a (runlock ∷ ops) e h f g writer waiter = cc
idle_moves s a (lock ∷ ops) e h f g writer waiter = (_, wait ops e g refl)
idle_moves s a (unlock ∷ ops) e h f g writer waiter = cc

unfinished_moves :
    (s : List Thread) (a : Thread)
    → IsOk a
    → holds_lock a ≡ false
    → is_unfinished a ≡ true
    → has_writer s ≡ false
    → has_waiting s ≡ false
    → waits a ≡ false
    → (b : Thread) × Move s a b
unfinished_moves s a (idle f r w g) free h writer waiter calm =
    idle_moves s a a.ops refl (ground arith) f g writer waiter
unfinished_moves s a (reading ops o f r w g) free h writer waiter calm = absurd (ground arith)
unfinished_moves s a (waiting ops o f r w g) free h writer waiter calm = absurd (cc)
unfinished_moves s a (writing ops o f r w g) free h writer waiter calm = absurd (ground arith)

-- In a state of such goroutines some goroutine can step, or all are finished.
pub progress :
    (s : List Thread)
    → All IsOk s
    → ((u : List Thread) × Step s u) ⊎ All (λ (t : Thread). is_unfinished t ≡ false) s
progress s ok = elim (find holds_lock s) [
  | inl (l, r, a, e, h) ↦
      let (b, move) = holder_moves s a (All-middle IsOk l r a (subst (All IsOk) e ok)) h in
      inl (l ++ b ∷ r, pick l r a b e refl move)
  | inr free ↦
      let (reads, writer) = none_hold s free in
      elim (find waits s) [
        | inl (l, r, a, e, h) ↦
            let (b, move) =
              waiting_moves s a (All-middle IsOk l r a (subst (All IsOk) e ok)) h reads writer in
            inl (l ++ b ∷ r, pick l r a b e refl move)
        | inr calm ↦ elim (find is_unfinished s) [
          | inr finished ↦ inr finished
          | inl (l, r, a, e, h) ↦
              let (b, move) =
                unfinished_moves s a (All-middle IsOk l r a (subst (All IsOk) e ok))
                  (All-middle (λ t. holds_lock t ≡ false) l r a
                    (subst (All (λ (t : Thread). holds_lock t ≡ false)) e free))
                  h writer (none_wait s calm)
                  (All-middle (λ t. waits t ≡ false) l r a
                    (subst (All (λ (t : Thread). waits t ≡ false)) e calm)) in
              inl (l ++ b ∷ r, pick l r a b e refl move)
        ]
      ]
]
