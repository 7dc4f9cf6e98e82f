-- ===== src/Logs/Rotate/Shared.antt =====
-- A rotation of a logger, and the services that share its logs.
use srv_app.Base.{
  ℕ, zero, suc, ◌≡◌, refl, sym, ap, ◌∙◌, Bool, true, false, List, [], ◌∷◌, map, Option, Text, ◌==◌,
  arith, subst, Memᴰ, All-mem, Bool-cases, All, inl, inr,
}
use srv_app.Logs.{SrvLog, LogService, Notifier, Store, service_at, update_at, no_service}
use srv_app.Logs.Rotate.{Rotated, Round, rotate_notifiers, rotate_subs, rotate}
use srv_app.Logs.Rotate.Once.{renamed, Once, Extends, IsKnown, rotate_notifiers_lem}

service_at-update_at :
    (i : ℕ) (f : LogService → LogService) (s : Store)
    → (service_at s i ≡ no_service → f no_service ≡ no_service)
    → service_at (update_at i f s) i ≡ f (service_at s i)
unfolding update_at
service_at-update_at i f [] h = sym (h refl)
service_at-update_at zero f (x ∷ s) h = refl
service_at-update_at (suc i) f (x ∷ s) h = service_at-update_at i f s h

pub service_at-other :
    (i j : ℕ) (f : LogService → LogService) (s : Store)
    → (i == j) ≡ false
    → service_at (update_at i f s) j ≡ service_at s j
unfolding update_at
service_at-other i j f [] h = refl
service_at-other zero zero f (x ∷ s) h = cc
service_at-other zero (suc j) f (x ∷ s) h = refl
service_at-other (suc i) zero f (x ∷ s) h = refl
service_at-other (suc i) (suc j) f (x ∷ s) h = service_at-other i j f s (ground arith)

renamed-Extends :
    (m m' : Rotated) (n : Notifier) → IsKnown m n → Extends m m' → renamed m n ≡ renamed m' n
renamed-Extends m m' n known ext = elim (Bool-cases n.is_buffered) [
  | inl buffered ↦ let (v, e) = known buffered in rw (buffered, e, ext n.address v e) refl
  | inr other ↦ rw other refl
]

map-renamed :
    (m m' : Rotated) (ns : List Notifier)
    → All (IsKnown m) ns
    → Extends m m'
    → map (renamed m) ns ≡ map (renamed m') ns
map-renamed m m' [] h ext = refl
map-renamed m m' (n ∷ ns) (known, h) ext =
    λ i. renamed-Extends m m' n known ext i ∷ map-renamed m m' ns h ext i

abbrev with_notifiers : List Notifier → LogService → LogService
with_notifiers ns x = record x { notifiers = ns }

-- A service after all the rotations.
abbrev pub renamed_service : Rotated → LogService → LogService
renamed_service m x = record x { notifiers = map (renamed m) x.notifiers }

abbrev IsElsewhere : ℕ → Text × ℕ → Type 0
IsElsewhere i e = (i == e.1) ≡ false

-- No two names have the same service.
abbrev pub AreSeparate : List (Text × ℕ) → Type 0
AreSeparate [] = Unit
AreSeparate ((k, i) ∷ subs) = All (IsElsewhere i) subs × AreSeparate subs

record AreRotated (m m' : Rotated) (subs : List (Text × ℕ)) (s s' : Store) : Type 0 where
  held : (e : Text × ℕ) → Memᴰ e subs → service_at s' e.1 ≡ renamed_service m' (service_at s e.1)
  kept : (j : ℕ) → All (IsElsewhere j) subs → service_at s' j ≡ service_at s j
  known : (e : Text × ℕ) → Memᴰ e subs → All (IsKnown m') (service_at s e.1).notifiers
  extends : Extends m m'
  once : Once m → Once m'

IsKnown-Extends :
    (m m' : Rotated) (ns : List Notifier) → All (IsKnown m) ns → Extends m m' → All (IsKnown m') ns
IsKnown-Extends m m' [] h ext = tt
IsKnown-Extends m m' (n ∷ ns) (known, h) ext = (
  λ buffered. let (v, e) = known buffered in (v, ext n.address v e),
  IsKnown-Extends m m' ns h ext,
)

module _ (rotate_log : Rotated → ℕ → Option ℕ) where
  value_of_nothing :
      (m : Rotated) (x : LogService)
      → x ≡ no_service
      → with_notifiers (rotate_notifiers rotate_log m x.notifiers).value no_service ≡ no_service
  unfolding rotate_notifiers
  value_of_nothing m x e = rw e refl

  -- One more service in front.
  held_lem :
      (k : Text) (i : ℕ) (subs : List (Text × ℕ)) (m : Rotated) (s s' : Store)
      → let r = rotate_notifiers rotate_log m (service_at s i).notifiers in
        let s₁ = update_at i (with_notifiers r.value) s in
        (m' : Rotated)
        → r.is_done ≡ true
        → All (IsElsewhere i) subs
        → AreRotated r.rotated m' subs s₁ s'
        → AreRotated m m' ((k, i) ∷ subs) s s'
  held_lem k i subs m s s' m' done sep rest =
      let ns = (service_at s i).notifiers in
      let r = rotate_notifiers rotate_log m ns in
      let one = rotate_notifiers_lem rotate_log ns m done in
      let here : service_at (update_at i (with_notifiers r.value) s) i
          ≡ with_notifiers r.value (service_at s i) =
        service_at-update_at i (with_notifiers r.value) s
          (λ e. value_of_nothing m (service_at s i) e) in
      let values = one.values ∙ map-renamed r.rotated m' ns one.known rest.extends in
      record {
        held = λ e l. elim l [
          | Memᴰ.head same ↦
              subst (λ (x : Text × ℕ). service_at s' x.1 ≡ renamed_service m' (service_at s x.1))
                (sym same)
                (rest.kept i sep
                  ∙ here
                  ∙ ap (λ (v : List Notifier). with_notifiers v (service_at s i)) values)
          | Memᴰ.tail later ↦
              rest.held e later
              ∙ ap (renamed_service m') (
                  service_at-other i e.1 (with_notifiers r.value) s
                    (All-mem (IsElsewhere i) sep later))
        ];
        kept = λ j o.
            rest.kept j o.1 ∙ service_at-other i j (with_notifiers r.value) s (ground (arith, o.0));
        known = λ e l. elim l [
          | Memᴰ.head same ↦
              subst (λ (x : Text × ℕ). All (IsKnown m') (service_at s x.1).notifiers) (sym same)
                (IsKnown-Extends r.rotated m' ns one.known rest.extends)
          | Memᴰ.tail later ↦
              subst (λ (x : LogService). All (IsKnown m') x.notifiers)
                (service_at-other i e.1 (with_notifiers r.value) s
                  (All-mem (IsElsewhere i) sep later))
                (rest.known e later)
        ];
        extends = λ a v e. rest.extends a v (one.extends a v e);
        once = λ o. rest.once (one.once o);
      }

  abbrev Rotates : Rotated → List (Text × ℕ) → Store → Round Store → Type 0
  Rotates m subs s r = r.is_done ≡ true → AreRotated m r.rotated subs s r.value

  rotate_subs_lem :
      (subs : List (Text × ℕ)) (m : Rotated) (s : Store)
      → AreSeparate subs
      → Rotates m subs s (rotate_subs rotate_log m subs s)
  unfolding rotate_subs
  rotate_subs_lem [] m s sep = λ h. record {
    held = λ e l. elim l [ ];
    kept = λ j o. refl;
    known = λ e l. elim l [ ];
    extends = λ a v e. e;
    once = λ o. o;
  }
  rotate_subs_lem ((k, i) ∷ subs) m s (sep, seps) =
      let r = rotate_notifiers rotate_log m (service_at s i).notifiers in
      let s₁ = update_at i (with_notifiers r.value) s in
      by_test r.is_done refl (rotate_subs_lem subs r.rotated s₁ seps)
    where
      by_test :
          let r = rotate_notifiers rotate_log m (service_at s i).notifiers in
          let s₁ = update_at i (with_notifiers r.value) s in
          (b : Bool)
          → r.is_done ≡ b
          → Rotates r.rotated subs s₁ (rotate_subs rotate_log r.rotated subs s₁)
          → Rotates m ((k, i) ∷ subs) s (elim b [
            | true ↦ rotate_subs rotate_log r.rotated subs s₁
            | false ↦ record { value = s₁; rotated = r.rotated; is_done = false }
          ])
      by_test true done rest h = held_lem k i subs m s _ _ done sep (rest h)
      by_test false done rest h = cc

-- A rotation that returns no error rotates no log twice, and every service of the logger then has
-- the new logs in place of the old ones: whoever held a log holds the one that took its place. (No
-- two names of the logger have the same service.)
pub rotate_shared :
    (rotate_log : Rotated → ℕ → Option ℕ) (l : SrvLog) (s : Store)
    → AreSeparate l.subs
    → (rotate rotate_log l s).is_done ≡ true
    → let r = rotate rotate_log l s in
      Once r.rotated
      × ((e : Text × ℕ)
          → Memᴰ e l.subs
          → service_at r.value e.1 ≡ renamed_service r.rotated (service_at s e.1))
unfolding rotate
rotate_shared rotate_log l s sep done =
    let lem = rotate_subs_lem rotate_log l.subs [] s sep done in (lem.once tt, lem.held)

-- Such a rotation has a new log for every buffered one.
pub rotate-IsKnown :
    (rotate_log : Rotated → ℕ → Option ℕ) (l : SrvLog) (s : Store)
    → AreSeparate l.subs
    → (rotate rotate_log l s).is_done ≡ true
    → (e : Text × ℕ) → Memᴰ e l.subs
    → All (IsKnown (rotate rotate_log l s).rotated) (service_at s e.1).notifiers
unfolding rotate
rotate-IsKnown rotate_log l s sep done = (rotate_subs_lem rotate_log l.subs [] s sep done).known
