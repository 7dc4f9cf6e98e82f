-- ===== src/Logs/Rotate/Once.antt =====
-- A rotation moves every log once, and all its holders with it.
use srv_app.Base.{
  ℕ, ◌≡◌, refl, sym, Bool, true, false, List, [], ◌∷◌, map, Option, none, some, ==_iff, ==_refl,
  if◌then◌else◌, arith, subst, All,
}
use srv_app.Logs.{Notifier}
use srv_app.Logs.Rotate.{Rotated, new_address, moved, Round, put_notifier, rotate_notifiers}

abbrev pub moved_to : Notifier → Option ℕ → Notifier
moved_to n none = n
moved_to n (some new) = moved n new

-- A notifier after all the rotations.
abbrev pub renamed : Rotated → Notifier → Notifier
renamed rotated n = if n.is_buffered then moved_to n (new_address n.address rotated) else n

-- No log is rotated twice.
abbrev pub Once : Rotated → Type 0
Once [] = Unit
Once ((a, new) ∷ m) = (new_address a m ≡ none) × Once m

-- What was rotated stays so.
abbrev pub Extends : Rotated → Rotated → Type 0
Extends m m' = (a v : ℕ) → new_address a m ≡ some v → new_address a m' ≡ some v

abbrev pub IsKnown : Rotated → Notifier → Type 0
IsKnown m n = n.is_buffered ≡ true → (v : ℕ) × (new_address n.address m ≡ some v)

-- The end of the loop over a service.
pub record IsRotated (m m' : Rotated) (ns ns' : List Notifier) : Type 0 where
  pub values : ns' ≡ map (renamed m') ns
  pub known : All (IsKnown m') ns
  pub extends : Extends m m'
  pub once : Once m → Once m'

-- One more notifier in front.
put_lem :
    (m m₁ m' : Rotated) (n n' : Notifier) (ns ns' : List Notifier)
    → Extends m m₁
    → (Once m → Once m₁)
    → n' ≡ renamed m' n
    → IsKnown m' n
    → IsRotated m₁ m' ns ns'
    → IsRotated m m' (n ∷ ns) (n' ∷ ns')
put_lem m m₁ m' n n' ns ns' ext once_step here known_n rest = record {
  values = λ i. here i ∷ rest.values i;
  known = (known_n, rest.known);
  extends = λ a v e. rest.extends a v (ext a v e);
  once = λ o. rest.once (once_step o);
}

known_lem :
    (m' : Rotated) (n : Notifier) (v : ℕ)
    → n.is_buffered ≡ true
    → new_address n.address m' ≡ some v
    → (moved n v ≡ renamed m' n) × IsKnown m' n
known_lem m' n v buffered e = (rw (buffered, e) refl, λ h. (v, e))

Extends-cons : (m : Rotated) (a new : ℕ) → new_address a m ≡ none → Extends m ((a, new) ∷ m)
unfolding new_address
Extends-cons m a new fresh b v e = ground (arith, ==_iff a b)

new_address-cons : (m : Rotated) (a new : ℕ) → new_address a ((a, new) ∷ m) ≡ some new
unfolding new_address
new_address-cons m a new = rw (==_refl a) refl

module _ (rotate_log : Rotated → ℕ → Option ℕ) where
  -- The round of the loop, by what its tests find.
  abbrev round :
      Rotated → Notifier → List Notifier → Bool → Option ℕ → Option ℕ → Round (List Notifier)
  round m n ns false o p = put_notifier n (rotate_notifiers rotate_log m ns)
  round m n ns true (some new) p = put_notifier (moved n new) (rotate_notifiers rotate_log m ns)
  round m n ns true none none = record { value = n ∷ ns; rotated = m; is_done = false }
  round m n ns true none (some new) =
      put_notifier (moved n new) (rotate_notifiers rotate_log ((n.address, new) ∷ m) ns)

  rotate_notifiers-cons :
      (m : Rotated) (n : Notifier) (ns : List Notifier)
      → rotate_notifiers rotate_log m (n ∷ ns)
        ≡ round m n ns n.is_buffered (new_address n.address m) (rotate_log m n.address)
  unfolding rotate_notifiers
  rotate_notifiers-cons m n ns =
      by_tests n.is_buffered (new_address n.address m) (rotate_log m n.address)
    where
      by_tests :
          (b : Bool) (o p : Option ℕ)
          → ◌≡◌ {A = Round (List Notifier)}
              (elim b [
                | false ↦ put_notifier n (rotate_notifiers rotate_log m ns)
                | true ↦ elim o [
                  | some new ↦ put_notifier (moved n new) (rotate_notifiers rotate_log m ns)
                  | none ↦ elim p [
                    | none ↦ record { value = n ∷ ns; rotated = m; is_done = false }
                    | some new ↦
                        put_notifier
                          (moved n new)
                          (rotate_notifiers rotate_log ((n.address, new) ∷ m) ns)
                  ]
                ]
              ])
              (round m n ns b o p)
      by_tests false o p = refl
      by_tests true (some new) p = refl
      by_tests true none none = refl
      by_tests true none (some new) = refl

  abbrev Rotates : Rotated → List Notifier → Round (List Notifier) → Type 0
  Rotates m ns r = r.is_done ≡ true → IsRotated m r.rotated ns r.value

  round_lem :
      (m : Rotated) (n : Notifier) (ns : List Notifier) (b : Bool) (o p : Option ℕ)
      → n.is_buffered ≡ b
      → new_address n.address m ≡ o
      → ((m₁ : Rotated) → Rotates m₁ ns (rotate_notifiers rotate_log m₁ ns))
      → Rotates m (n ∷ ns) (round m n ns b o p)
  round_lem m n ns false o p kind found rest h =
      put_lem m m _ n n ns _ (λ a v e. e) (λ once. once) (rw kind refl) (λ e. absurd (cc (kind, e)))
        (rest m h)
  round_lem m n ns true (some new) p kind found rest h =
      let after = rest m h in
      let (here, known) = known_lem _ n new kind (after.extends n.address new found) in
      put_lem m m _ n (moved n new) ns _ (λ a v e. e) (λ once. once) here known after
  round_lem m n ns true none none kind found rest h = cc
  round_lem m n ns true none (some new) kind found rest h =
      let m₁ = (n.address, new) ∷ m in
      let after = rest m₁ h in
      let (here, known) =
        known_lem _ n new kind (after.extends n.address new (new_address-cons m n.address new)) in
      put_lem m m₁ _ n (moved n new) ns _ (Extends-cons m n.address new found)
        (λ once. (found, once)) here known after

  no_notifiers : (m : Rotated) → Rotates m [] (rotate_notifiers rotate_log m [])
  unfolding rotate_notifiers
  no_notifiers m h = record { values = refl; known = tt; extends = λ a v e. e; once = λ o. o }

  pub rotate_notifiers_lem :
      (ns : List Notifier) (m : Rotated) → Rotates m ns (rotate_notifiers rotate_log m ns)
  rotate_notifiers_lem [] m = no_notifiers m
  rotate_notifiers_lem (n ∷ ns) m =
      subst (Rotates m (n ∷ ns)) (sym (rotate_notifiers-cons m n ns)) (
        round_lem m n ns n.is_buffered (new_address n.address m) (rotate_log m n.address) refl refl
          (rotate_notifiers_lem ns))
