-- ===== src/Logs/Locks/Held.antt =====
-- Where goroutines stand whose calls give the lock back before the next one.
use srv_app.Base.{
  suc, ◌≡◌, refl, sym, ap, ◌∙◌, subst, Bool, true, false, ◌⊎◌, inl, inr, List, [], ◌∷◌, ◌++◌, All,
  arith,
}
use srv_app.Logs.Locks.{
  Op, rlock, runlock, lock, unlock, Thread, Move, read, read_end, wait, write, write_end, Step,
  pick, Steps, done, next,
}

-- Every lock is followed by its unlock at once.
abbrev pub is_flat : List Op → Bool
is_flat [] = true
is_flat (rlock ∷ runlock ∷ ops) = is_flat ops
is_flat (lock ∷ unlock ∷ ops) = is_flat ops
is_flat (_ ∷ _) = false

-- Where a goroutine stands whose calls are flat.
pub data IsOk (t : Thread) : Type 0 where
  idle : is_flat t.ops ≡ true → t.reads ≡ 0 → t.is_writer ≡ false → t.is_waiting ≡ false → IsOk t
  reading :
      (ops : List Op)
      → t.ops ≡ runlock ∷ ops
      → is_flat ops ≡ true
      → t.reads ≡ 1
      → t.is_writer ≡ false
      → t.is_waiting ≡ false
      → IsOk t
  waiting :
      (ops : List Op)
      → t.ops ≡ lock ∷ unlock ∷ ops
      → is_flat ops ≡ true
      → t.reads ≡ 0
      → t.is_writer ≡ false
      → t.is_waiting ≡ true
      → IsOk t
  writing :
      (ops : List Op)
      → t.ops ≡ unlock ∷ ops
      → is_flat ops ≡ true
      → t.reads ≡ 0
      → t.is_writer ≡ true
      → t.is_waiting ≡ false
      → IsOk t

flat_read :
    (ops : List Op)
    → is_flat (rlock ∷ ops) ≡ true
    → (rest : List Op) × (ops ≡ runlock ∷ rest) × (is_flat rest ≡ true)
flat_read [] h = cc
flat_read (rlock ∷ ops) h = cc
flat_read (runlock ∷ ops) h = (ops, refl, h)
flat_read (lock ∷ ops) h = cc
flat_read (unlock ∷ ops) h = cc

flat_write :
    (ops : List Op)
    → is_flat (lock ∷ ops) ≡ true
    → (rest : List Op) × (ops ≡ unlock ∷ rest) × (is_flat rest ≡ true)
flat_write [] h = cc
flat_write (rlock ∷ ops) h = cc
flat_write (runlock ∷ ops) h = cc
flat_write (lock ∷ ops) h = cc
flat_write (unlock ∷ ops) h = (ops, refl, h)

flat_head : (op : Op) (ops : List Op) → is_flat (op ∷ ops) ≡ true → (op ≡ rlock) ⊎ (op ≡ lock)
flat_head rlock ops h = inl refl
flat_head runlock ops h = cc
flat_head lock ops h = inr refl
flat_head unlock ops h = cc

abbrev tail_of : List Op → List Op
tail_of [] = []
tail_of (x ∷ l) = l

Move-IsOk : (all : List Thread) (t u : Thread) → Move all t u → IsOk t → IsOk u
Move-IsOk all t u (read ops o a b e) (idle f r w g) =
    let (rest, same, flat) = flat_read ops (rw o at f) in
    rw e (reading rest same flat (ap suc r) w g)
Move-IsOk all t u (read ops o a b e) (reading ops' o' f r w g) = absurd (cc)
Move-IsOk all t u (read ops o a b e) (waiting ops' o' f r w g) = absurd (cc)
Move-IsOk all t u (read ops o a b e) (writing ops' o' f r w g) = absurd (cc)
Move-IsOk all t u (read_end ops n o a e) (idle f r w g) = absurd (cc)
Move-IsOk all t u (read_end ops n o a e) (reading ops' o' f r w g) =
    let same : ops ≡ ops' = ap tail_of (sym o ∙ o') in rw e (idle (rw same f) (omega arith) w g)
Move-IsOk all t u (read_end ops n o a e) (waiting ops' o' f r w g) = absurd (cc)
Move-IsOk all t u (read_end ops n o a e) (writing ops' o' f r w g) = absurd (cc)
Move-IsOk all t u (wait ops o a e) (idle f r w g) =
    let (rest, same, flat) = flat_write ops (rw o at f) in
    rw e (waiting rest (o ∙ ap (◌∷◌ lock) same) flat r w refl)
Move-IsOk all t u (wait ops o a e) (reading ops' o' f r w g) = absurd (cc)
Move-IsOk all t u (wait ops o a e) (waiting ops' o' f r w g) = absurd (cc)
Move-IsOk all t u (wait ops o a e) (writing ops' o' f r w g) = absurd (cc)
Move-IsOk all t u (write ops o a b c e) (idle f r w g) = absurd (cc)
Move-IsOk all t u (write ops o a b c e) (reading ops' o' f r w g) = absurd (cc)
Move-IsOk all t u (write ops o a b c e) (waiting ops' o' f r w g) =
    let same : ops ≡ unlock ∷ ops' = ap tail_of (sym o ∙ o') in
    rw e (writing ops' same f r refl refl)
Move-IsOk all t u (write ops o a b c e) (writing ops' o' f r w g) = absurd (cc)
Move-IsOk all t u (write_end ops o a e) (idle f r w g) = absurd (cc)
Move-IsOk all t u (write_end ops o a e) (reading ops' o' f r w g) = absurd (cc)
Move-IsOk all t u (write_end ops o a e) (waiting ops' o' f r w g) = absurd (cc)
Move-IsOk all t u (write_end ops o a e) (writing ops' o' f r w g) =
    let same : ops ≡ ops' = ap tail_of (sym o ∙ o') in rw e (idle (rw same f) r refl g)

pub All-middle : (P : Thread → Type 0) (l r : List Thread) (a : Thread) → All P (l ++ a ∷ r) → P a
All-middle P [] r a h = h.0
All-middle P (x ∷ l) r a h = All-middle P l r a h.1

All-replace :
    (l r : List Thread) (a b : Thread) → All IsOk (l ++ a ∷ r) → IsOk b → All IsOk (l ++ b ∷ r)
All-replace [] r a b h k = (k, h.1)
All-replace (x ∷ l) r a b h k = (h.0, All-replace l r a b h.1 k)

Step-AreOk : {s u : List Thread} → Step s u → All IsOk s → All IsOk u
Step-AreOk {s} {u} (pick l r a b e e' move) h =
    let all = subst (All IsOk) e h in
    subst (All IsOk) (sym e')
      (All-replace l r a b all (Move-IsOk s a b move (All-middle IsOk l r a all)))

pub Steps-AreOk : {s u : List Thread} → Steps s u → All IsOk s → All IsOk u
Steps-AreOk done h = h
Steps-AreOk (next r st) h = Step-AreOk st (Steps-AreOk r h)
