-- ===== src/Logs/Loop/Together.antt =====
-- The logs that a logger's names have through all rotations.
use srv_app.Base.{
  ℕ, suc, ◌+◌, ◌≡◌, refl, arith, ap, sym, ◌∙◌, ◌⊎◌, inl, inr, Bool, true, false, List, [], ◌∷◌, map,
  Option, none, some, Text, Memᴰ, All, subst, length, Bool-cases, Option-cases, if◌then◌else◌,
}
use srv_app.Logs.{SrvLog, LogService, Notifier, Store, service_at, update_at, close}
use srv_app.Logs.Rotate.{Rotated, new_address, rotate_notifiers, rotate_subs, rotate}
use srv_app.Logs.Rotate.Once.{renamed, IsKnown}
use srv_app.Logs.Rotate.Shared.{AreSeparate, rotate_shared, rotate-IsKnown}
use srv_app.Logs.Loop.{LogEvent, day, rotate_request, shut_down, log_loop}

module _ (new_log : Rotated → ℕ → ℕ) where
  abbrev always : Rotated → ℕ → Option ℕ
  always m a = some (new_log m a)

  -- Where `flog.Rotate` always gives a buffered log, there is no error.
  rotate_notifiers-is_done :
      (m : Rotated) (ns : List Notifier) → (rotate_notifiers always m ns).is_done ≡ true
  unfolding rotate_notifiers
  rotate_notifiers-is_done m [] = refl
  rotate_notifiers-is_done m (n ∷ ns) = ground (
    arith,
    rotate_notifiers-is_done m ns,
    rotate_notifiers-is_done ((n.address, new_log m n.address) ∷ m) ns,
  )

  rotate_subs-is_done :
      (m : Rotated) (subs : List (Text × ℕ)) (s : Store)
      → (rotate_subs always m subs s).is_done ≡ true
  unfolding rotate_subs
  rotate_subs-is_done m [] s = refl
  rotate_subs-is_done m ((k, i) ∷ subs) s =
      let r = rotate_notifiers always m (service_at s i).notifiers in
      ground (
        arith,
        rotate_notifiers-is_done m (service_at s i).notifiers,
        rotate_subs-is_done r.rotated subs (update_at i (λ x. record x { notifiers = r.value }) s),
      )

-- Every name of the logger has these notifiers.
abbrev pub HaveNotifiers : SrvLog → Store → List Notifier → Type 0
HaveNotifiers l s ns = (e : Text × ℕ) → Memᴰ e l.subs → (service_at s e.1).notifiers ≡ ns

length-map : (f : Notifier → Notifier) (ns : List Notifier) → length (map f ns) ≡ length ns
length-map f [] = refl
length-map f (n ∷ ns) = ap suc (length-map f ns)

no_address : (a v : ℕ) → new_address a [] ≡ some v → ⊥
unfolding new_address
no_address a v e = cc

-- How often the loop rotates the logs before it ends.
abbrev pub rotations : List LogEvent → ℕ
rotations [] = 0
rotations (day ∷ es) = suc (rotations es)
rotations (rotate_request ∷ es) = suc (rotations es)
rotations (shut_down ∷ es) = 0

abbrev pub is_shut_down : List LogEvent → Bool
is_shut_down [] = false
is_shut_down (day ∷ es) = is_shut_down es
is_shut_down (rotate_request ∷ es) = is_shut_down es
is_shut_down (shut_down ∷ es) = true

-- `made_in` tells in which rotation a log was made.
module _ (made_in : ℕ → ℕ) where
  -- A buffered log of that rotation, or another notifier.
  abbrev pub IsOf : ℕ → Notifier → Type 0
  IsOf k n = n.is_buffered ≡ true → made_in n.address ≡ k

  abbrev AllOf : ℕ → Rotated → Type 0
  AllOf k m = (a v : ℕ) → new_address a m ≡ some v → made_in v ≡ k

  AllOf-cons : (k a new : ℕ) (m : Rotated) → made_in new ≡ k → AllOf k m → AllOf k ((a, new) ∷ m)
  unfolding new_address
  AllOf-cons k a new m made h b v e = ground (arith, h b v)

  module _ (k : ℕ) (new_log : Rotated → ℕ → ℕ)
      (made : (m : Rotated) (a : ℕ) → made_in (new_log m a) ≡ k) where
    rotate_notifiers-AllOf :
        (ns : List Notifier) (m : Rotated)
        → AllOf k m
        → AllOf k (rotate_notifiers (always new_log) m ns).rotated
    unfolding rotate_notifiers
    rotate_notifiers-AllOf [] m h = h
    rotate_notifiers-AllOf (n ∷ ns) m h =
        let after = rotate_notifiers (always new_log) m (n ∷ ns) in
        let kept = rotate_notifiers (always new_log) m ns in
        let new = new_log m n.address in
        let more = rotate_notifiers (always new_log) ((n.address, new) ∷ m) ns in
        let or_more : (after.rotated ≡ kept.rotated)
            ⊎ ((after.rotated ≡ more.rotated) × (new_address n.address m ≡ none)) =
          elim (Bool-cases n.is_buffered) [
            | inr other ↦ inl (ground arith)
            | inl buffered ↦ elim (Option-cases (new_address n.address m)) [
              | inr (v, found) ↦ inl (ground arith)
              | inl fresh ↦ inr (ground arith, fresh)
            ]
          ] in
        elim or_more [
          | inl same ↦ subst (AllOf k) (sym same) (rotate_notifiers-AllOf ns m h)
          | inr (same, fresh) ↦ subst (AllOf k) (sym same) (
              rotate_notifiers-AllOf ns ((n.address, new) ∷ m)
                (AllOf-cons k n.address new m (made m n.address) h))
        ]

    rotate_subs-AllOf :
        (subs : List (Text × ℕ)) (m : Rotated) (s : Store)
        → AllOf k m
        → AllOf k (rotate_subs (always new_log) m subs s).rotated
    unfolding rotate_subs
    rotate_subs-AllOf [] m s h = h
    rotate_subs-AllOf ((j, i) ∷ subs) m s h =
        let ns = (service_at s i).notifiers in
        let r = rotate_notifiers (always new_log) m ns in
        let s₁ = update_at i (λ x. record x { notifiers = r.value }) s in
        let done = rotate_notifiers-is_done new_log m ns in
        let same : (rotate_subs (always new_log) m ((j, i) ∷ subs) s).rotated
            ≡ (rotate_subs (always new_log) r.rotated subs s₁).rotated =
          ground (arith, done) in
        subst (AllOf k) (sym same)
          (rotate_subs-AllOf subs r.rotated s₁ (rotate_notifiers-AllOf ns m h))

    renamed-IsOf :
        (m : Rotated) (ns : List Notifier)
        → AllOf k m
        → All (IsKnown m) ns
        → All (IsOf k) (map (renamed m) ns)
    renamed-IsOf m [] all known = tt
    renamed-IsOf m (n ∷ ns) all (here, known) = (one, renamed-IsOf m ns all known)
      where
        one : IsOf k (renamed m n)
        one = elim (Bool-cases n.is_buffered) [
          | inl buffered ↦ let (v, e) = here buffered in rw (buffered, e) (λ h. all n.address v e)
          | inr other ↦ rw other (λ h. absurd (cc (other, h)))
        ]

  module _ (new_log : ℕ → Rotated → ℕ → ℕ)
      (made : (n : ℕ) (m : Rotated) (a : ℕ) → made_in (new_log n m a) ≡ suc n) (l : SrvLog)
      (separate : AreSeparate l.subs) (some_name : Text × ℕ) (named : Memᴰ some_name l.subs) where
    -- The names have these notifiers, whose buffered logs are of the n-th rotation.
    abbrev Holds : ℕ → ℕ → Store → Type 0
    Holds n len s =
        (ns : List Notifier) × HaveNotifiers l s ns × All (IsOf n) ns × (length ns ≡ len)

    rotate_together :
        (n len : ℕ) (s : Store)
        → Holds n len s
        → Holds (suc n) len (rotate (always (new_log n)) l s).value
    unfolding rotate
    rotate_together n len s (ns, have, _, long) =
        let r = rotate (always (new_log n)) l s in
        let done = rotate_subs-is_done (new_log n) [] l.subs s in
        let (_, held) = rotate_shared (always (new_log n)) l s separate done in
        let known = rotate-IsKnown (always (new_log n)) l s separate done some_name named in
        let all : AllOf (suc n) r.rotated =
          rotate_subs-AllOf (suc n) (new_log n) (made n) l.subs [] s
            (λ a v e. absurd (no_address a v e)) in
        (
          map (renamed r.rotated) ns,
          λ e m.
              ap (λ (x : LogService). x.notifiers) (held e m)
              ∙ ap (map (renamed r.rotated)) (have e m),
          renamed-IsOf (suc n) (new_log n) (made n) r.rotated ns all
              (subst (All (IsKnown r.rotated)) (have some_name named) known),
          length-map (renamed r.rotated) ns ∙ long,
        )

    -- Where `flog.Rotate` gives a buffered log, and all names of a logger have the same notifiers: they
    -- have the same ones, as many, whatever days pass and whatever rotations and shutdown are asked for;
    -- each buffered one among them is then a log of the last rotation, there being one for every day
    -- and every request before the shutdown; and the logs that are closed are those of the logger, if
    -- there is a shutdown, and else none. (No two names of the logger have the same service.)
    pub log_loop_together :
        (n len : ℕ) (es : List LogEvent) (s : Store)
        → Holds n len s
        → let (s', closed) = log_loop (λ i. always (new_log i)) l n es s in
          Holds (n + rotations es) len s' × (closed ≡ (if is_shut_down es then close l s' else []))
    unfolding log_loop
    log_loop_together n len [] s have = (subst (λ (k : ℕ). Holds k len s) (omega arith) have, refl)
    log_loop_together n len (shut_down ∷ es) s have =
        (subst (λ (k : ℕ). Holds k len s) (omega arith) have, refl)
    log_loop_together n len (day ∷ es) s have =
        let s₁ = (rotate (always (new_log n)) l s).value in
        let (held, closed) = log_loop_together (suc n) len es s₁ (rotate_together n len s have) in
        (
          subst (λ (k : ℕ). Holds k len (log_loop (λ i. always (new_log i)) l (suc n) es s₁).0)
              (omega arith) held,
          closed,
        )
    log_loop_together n len (rotate_request ∷ es) s have =
        let s₁ = (rotate (always (new_log n)) l s).value in
        let (held, closed) = log_loop_together (suc n) len es s₁ (rotate_together n len s have) in
        (
          subst (λ (k : ℕ). Holds k len (log_loop (λ i. always (new_log i)) l (suc n) es s₁).0)
              (omega arith) held,
          closed,
        )
