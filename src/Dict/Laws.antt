-- ===== src/Dict/Laws.antt =====
-- The laws of the operations on maps.
use srv_app.Base.{
  ◌≡◌, refl, inl, inr, List, [], ◌∷◌, none, some, Memᴰ, Text, text_eq, text_eq_iff, text_eq_refl,
  if◌then◌else◌, arith, Bool-cases, ap,
}
use srv_app.Dict.{lookup, insert, delete, IsMap}

module _ {V : Type 0} where
  pub lookup-insert :
      (k j : Text) (new : V) (m : List (Text × V))
      → lookup j (insert k new m) ≡ (if text_eq k j then some new else lookup j m)
  unfolding insert lookup
  lookup-insert k j new [] = ground arith
  lookup-insert k j new ((i, old) ∷ m) =
      ground (arith, lookup-insert k j new m, text_eq_iff i k, text_eq_iff i j, text_eq_iff k j)

  pub lookup-delete :
      (k j : Text) (m : List (Text × V))
      → lookup j (delete k m) ≡ (if text_eq k j then none else lookup j m)
  unfolding lookup delete
  lookup-delete k j [] = ground arith
  lookup-delete k j ((i, w) ∷ m) =
      ground (arith, text_eq_iff k j, text_eq_iff i k, text_eq_iff i j, lookup-delete k j m)

  pub lookup-insert_self :
      (k : Text) (v : V) (m : List (Text × V)) → lookup k (insert k v m) ≡ some v
  lookup-insert_self k v m = rw (lookup-insert k k v m, text_eq_refl k)

  pub insert-IsMap : (k : Text) (v : V) (m : List (Text × V)) → IsMap m → IsMap (insert k v m)
  unfolding insert
  insert-IsMap k v [] h = (unfold lookup in refl, tt)
  insert-IsMap k v ((j, w) ∷ m) h = elim (Bool-cases (text_eq j k)) [
    | inl same ↦ rw same (rw (← (text_eq_iff j k).0 same) h)
    | inr other ↦ rw other (
      ground (arith, lookup-insert k j v m, text_eq_iff j k, text_eq_iff k j),
      insert-IsMap k v m h.1,
    )
  ]

  pub delete-IsMap : (k : Text) (m : List (Text × V)) → IsMap m → IsMap (delete k m)
  unfolding delete
  delete-IsMap k [] h = tt
  delete-IsMap k ((j, w) ∷ m) h = elim (Bool-cases (text_eq j k)) [
    | inl same ↦ rw same (delete-IsMap k m h.1)
    | inr other ↦
        rw other (ground (arith, lookup-delete k j m, text_eq_iff k j), delete-IsMap k m h.1)
  ]

  pub mem_of_lookup : (k : Text) (v : V) (m : List (Text × V)) → lookup k m ≡ some v → Memᴰ (k, v) m
  unfolding lookup
  mem_of_lookup k v [] h = cc
  mem_of_lookup k v ((j, w) ∷ m) h = elim (Bool-cases (text_eq j k)) [
    | inl same ↦ let e : w ≡ v = ground arith in Memᴰ.head (cc ((text_eq_iff j k).0 same))
    | inr other ↦ Memᴰ.tail (mem_of_lookup k v m (rw other at h))
  ]

  pub lookup_of_mem :
      (k : Text) (v : V) (m : List (Text × V)) → IsMap m → Memᴰ (k, v) m → lookup k m ≡ some v
  unfolding lookup
  lookup_of_mem k v [] h m = elim m [ ]
  lookup_of_mem k v ((j, w) ∷ m) h (Memᴰ.head e) =
      ground (arith, ap (λ (x : Text × V). x.0) e, ap (λ (x : Text × V). x.1) e, text_eq_iff j k)
  lookup_of_mem k v ((j, w) ∷ m) h (Memᴰ.tail r) =
      ground (arith, lookup_of_mem k v m h.1 r, text_eq_iff j k)

  -- The entries of a map are known by their keys.
  pub entry_unique :
      (e e' : Text × V) (m : List (Text × V)) → IsMap m → Memᴰ e m → Memᴰ e' m → e.0 ≡ e'.0 → e ≡ e'
  entry_unique e e' m h p q key =
      let found = lookup_of_mem e.0 e.1 m h p in
      let found' = lookup_of_mem e'.0 e'.1 m h q in
      let value : e.1 ≡ e'.1 = cc (ap (λ (k : Text). lookup k m) key) in λ i. (key i, value i)
