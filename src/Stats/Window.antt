-- ===== src/Stats/Window.antt =====
-- The ring buffer shows the last events, the oldest first.
use srv_app.Base.{
  ℕ, zero, suc, ◌-◌, ◌≡◌, refl, List, [], ◌∷◌, ◌++◌, none, some, length, drop, arith, append_assoc,
  append-nil, ◌∙◌, ap, sym, Text,
}
use srv_app.Geo.{GeoIpData}
use srv_app.Stats.{Ring, new_ring, store, collect, get_buffer, RequestLog, take_event, take_events}

module _ {A : Type 0} where
  -- The values that are stored, from the current element on.
  values : Ring A → List A
  values [] = []
  values (none ∷ r) = values r
  values (some x ∷ r) = x ∷ values r

  collect-values : (tmp : List A) (r : Ring A) → collect tmp r ≡ tmp ++ values r
  unfolding collect values
  collect-values tmp [] = sym (append-nil tmp)
  collect-values tmp (none ∷ r) = collect-values tmp r
  collect-values tmp (some x ∷ r) =
      collect-values (tmp ++ x ∷ []) r ∙ append_assoc tmp (x ∷ []) (values r)

  stores : Ring A → List A → Ring A
  stores r [] = r
  stores r (x ∷ xs) = stores (store x r) xs

  -- A ring of `free` empty elements and then the values of `full`.
  holding : ℕ → List A → Ring A
  holding zero [] = []
  holding zero (x ∷ full) = some x ∷ holding zero full
  holding (suc free) full = none ∷ holding free full

  holding_snoc :
      (free : ℕ) (full : List A) (x : A)
      → holding free full ++ some x ∷ [] ≡ holding free (full ++ x ∷ [])
  unfolding holding
  holding_snoc zero [] x = refl
  holding_snoc zero (y ∷ full) x = ap (◌∷◌ (some y)) (holding_snoc zero full x)
  holding_snoc (suc free) full x = ap (◌∷◌ none) (holding_snoc free full x)

  values-holding : (free : ℕ) (full : List A) → values (holding free full) ≡ full
  unfolding values holding
  values-holding zero [] = refl
  values-holding zero (x ∷ full) = ap (◌∷◌ x) (values-holding zero full)
  values-holding (suc free) full = values-holding free full

  new_ring-holding : (n : ℕ) → new_ring n ≡ holding n []
  unfolding holding
  new_ring-holding zero = refl
  new_ring-holding (suc n) = ap (◌∷◌ none) (new_ring-holding n)

  drop_eq : (j k : ℕ) (l : List A) → j ≡ k → drop j l ≡ drop k l
  drop_eq j k l e = ap (λ (n : ℕ). drop n l) e

  -- The values of a ring with free elements after more values are stored.
  stores-holding :
      (xs : List A) (free : ℕ) (full : List A)
      → values (stores (holding free full) xs) ≡ drop (length xs - free) (full ++ xs)
  unfolding stores store holding
  stores-holding [] free full =
      values-holding free full
      ∙ sym (append-nil full)
      ∙ drop_eq 0 (0 - free) (full ++ []) (omega arith)
  stores-holding (x ∷ xs) (suc free) full =
      ap (λ (r : Ring A). values (stores r xs)) (holding_snoc free full x)
      ∙ stores-holding xs free (full ++ x ∷ [])
      ∙ ap (λ (l : List A). drop (length xs - free) l) (append_assoc full (x ∷ []) xs)
      ∙ drop_eq (length xs - free) (suc (length xs) - suc free) (full ++ x ∷ xs) (omega arith)
  stores-holding (x ∷ xs) zero [] =
      stores-holding xs zero []
      ∙ drop_eq (length xs - zero) (length xs) xs (omega arith)
      ∙ drop_eq (suc (length xs)) (suc (length xs) - zero) (x ∷ xs) (omega arith)
  stores-holding (x ∷ xs) zero (y ∷ full) =
      ap (λ (r : Ring A). values (stores r xs)) (holding_snoc zero full x)
      ∙ stores-holding xs zero (full ++ x ∷ [])
      ∙ ap (λ (l : List A). drop (length xs - zero) l) (append_assoc full (x ∷ []) xs)
      ∙ drop_eq (length xs - zero) (length xs) (full ++ x ∷ xs) (omega arith)
      ∙ drop_eq (suc (length xs)) (suc (length xs) - zero) (y ∷ (full ++ x ∷ xs)) (omega arith)

module _ {G : Type 0} (resolve : G → Text → G × GeoIpData) where
  -- The events with their countries, each looked up in the state that the ones before it left.
  unfoldable pub resolved : G → List RequestLog → List RequestLog
  resolved g [] = []
  resolved g (e ∷ es) =
      let (g', geo) = resolve g e.host in record e { geo_data = some geo } ∷ resolved g' es

  length-resolved : (g : G) (es : List RequestLog) → length (resolved g es) ≡ length es
  unfolding resolved
  length-resolved g [] = refl
  length-resolved g (e ∷ es) = ap suc (length-resolved (resolve g e.host).0 es)

  take_events-stores :
      (g : G) (ring : Ring RequestLog) (es : List RequestLog)
      → (take_events resolve (g, ring) es).1 ≡ stores ring (resolved g es)
  unfolding take_events take_event stores resolved
  take_events-stores g ring [] = refl
  take_events-stores g ring (e ∷ es) =
      let (g', geo) = resolve g e.host in
      take_events-stores g' (store (record e { geo_data = some geo }) ring) es

  -- After any number of events the buffer of capacity `n` shows the last `n` of them, all if there
  -- are fewer, the oldest first, each with the country that was looked up when it was taken.
  pub get_buffer-take_events :
      (n : ℕ) (g : G) (es : List RequestLog)
      → get_buffer (take_events resolve (g, new_ring n) es).1 ≡ drop (length es - n) (resolved g es)
  unfolding get_buffer
  get_buffer-take_events n g es =
      collect-values [] _
      ∙ ap values (
          take_events-stores g (new_ring n) es
          ∙ ap (λ (r : Ring RequestLog). stores r (resolved g es)) (new_ring-holding n))
      ∙ stores-holding (resolved g es) n []
      ∙ ap (λ (k : ℕ). drop (k - n) (resolved g es)) (length-resolved g es)
