-- ===== src/Dict.antt =====
-- A Go map with string keys, as the list of its entries in the order in which `range` meets them.
-- Go leaves that order open, so what a loop over a map computes is stated for every order.
pub mod Laws
use srv_app.Base.{
  ℕ, ◌≡◌, Bool, List, [], ◌∷◌, map, Option, none, some, Text, text_eq, if◌then◌else◌, is_none, not,
}

module _ {V : Type 0} where
  -- `m[k]` with its second result.
  unfoldable pub lookup : Text → List (Text × V) → Option V
  lookup k [] = none
  lookup k (e ∷ m) = if text_eq e.0 k then some e.1 else lookup k m

  -- `m[k] = v`
  unfoldable pub insert : Text → V → List (Text × V) → List (Text × V)
  insert k v [] = (k, v) ∷ []
  insert k v (e ∷ m) = if text_eq e.0 k then (k, v) ∷ m else e ∷ insert k v m

  -- `delete(m, k)`
  unfoldable pub delete : Text → List (Text × V) → List (Text × V)
  delete k [] = []
  delete k ((j, w) ∷ m) = let rest = delete k m in if text_eq j k then rest else (j, w) ∷ rest

  abbrev pub member : Text → List (Text × V) → Bool
  member k m = not (is_none (lookup k m))

  abbrev pub keys : List (Text × V) → List Text
  keys = map (λ e. e.0)

  -- No key has two entries.
  abbrev pub IsMap : List (Text × V) → Type 0
  IsMap [] = Unit
  IsMap ((k, v) ∷ m) = (lookup k m ≡ none) × IsMap m
