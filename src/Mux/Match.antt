-- ===== src/Mux/Match.antt =====
-- The choice of a handler among the patterns of the map.
use srv_app.Base.{
  ℕ, ◌≤◌, ◌≡◌, refl, ◌⊎◌, inl, inr, true, false, List, [], ◌∷◌, none, some, Memᴰ, Text, text_eq_iff,
  arith, Bool-cases, sym, ap, ◌∙◌, length, take, take-length, length-take, All, All-mem, All-of_mem,
  ◌≢◌,
}
use srv_app.Mux.{MuxEntry, XMux, Best, no_match, best_of, path_match, match_step, match_from, match}
use srv_app.Dict.{IsMap, lookup}
use srv_app.Dict.Laws.{entry_unique, mem_of_lookup}

-- A pattern that matches is the beginning of the path.
pub take-path_match : (k path : Text) → path_match k path ≡ true → take (length k) path ≡ k
unfolding path_match
take-path_match k path h =
    ground (arith, text_eq_iff k path, text_eq_iff (take (length k) path) k, take-length k)

-- Two patterns of one length that match the same path are equal.
pub path_match_unique :
    (k j path : Text)
    → path_match k path ≡ true
    → path_match j path ≡ true
    → length k ≡ length j
    → k ≡ j
path_match_unique k j path hk hj e =
    sym (take-path_match k path hk) ∙ ap (λ (n : ℕ). take n path) e ∙ take-path_match j path hj

module _ (path : Text) where
  -- The key of the entry, if it matches, has length at most `n`.
  abbrev pub AtMost : ℕ → Text × MuxEntry → Type 0
  AtMost n e = path_match e.0 path ≡ true → length e.0 ≤ n

  -- The entry `e` of `m` matches, and no longer key does.
  pub record IsLongest (m : List (Text × MuxEntry)) (e : Text × MuxEntry) : Type 0 where
    pub listed : Memᴰ e m
    pub matches : path_match e.0 path ≡ true
    pub longest : All (AtMost (length e.0)) m

  -- The result `r` of a search in `m`: nothing where no key matches, or a longest entry.
  abbrev pub Chosen : List (Text × MuxEntry) → Best → Type 0
  Chosen m r =
      ((r ≡ no_match) × All (λ (e : Text × MuxEntry). path_match e.0 path ≡ false) m)
      ⊎ ((e : Text × MuxEntry) × (r ≡ best_of e) × IsLongest m e)

  -- The entry does not beat `b`.
  abbrev Beaten : Best → Text × MuxEntry → Type 0
  Beaten b e = path_match e.0 path ≡ true → (b.h ≢ none) × (length e.0 ≤ b.n)

  -- What the loop has found behind `b`: nothing better, or a longest entry that beats `b`.
  abbrev Kept : Best → List (Text × MuxEntry) → Best → Type 0
  Kept b m r = (r ≡ b) × All (Beaten b) m

  abbrev Beats : Best → Text × MuxEntry → Type 0
  Beats b e = (b.h ≡ none) ⊎ (b.n ≤ length e.0)

  abbrev Improved : Best → List (Text × MuxEntry) → Best → Type 0
  Improved b m r = (e : Text × MuxEntry) × (r ≡ best_of e) × IsLongest m e × Beats b e

  match_step_cases :
      (b : Best) (e : Text × MuxEntry)
      → ((match_step path b e ≡ b) × Beaten b e)
        ⊎ ((match_step path b e ≡ best_of e) × (path_match e.0 path ≡ true) × Beats b e)
  unfolding match_step
  match_step_cases b (k, v) = ground arith

  Beaten-AtMost :
      (b : Best) (n : ℕ)
      → b.n ≤ n
      → (m : List (Text × MuxEntry)) → All (Beaten b) m
      → All (AtMost n) m
  Beaten-AtMost b n h [] t = tt
  Beaten-AtMost b n h (e ∷ m) (p, t) = ((λ q. omega (arith, p q)), Beaten-AtMost b n h m t)

  AtMost-of_Beats :
      (b : Best) (e e' : Text × MuxEntry) → Beaten b e → Beats b e' → AtMost (length e'.0) e
  AtMost-of_Beats b e e' low (inl none_yet) q = absurd ((low q).0 none_yet)
  AtMost-of_Beats b e e' low (inr shorter) q = omega (arith, low q)

  Beats-best_of : (e e' : Text × MuxEntry) → Beats (best_of e) e' → length e.0 ≤ length e'.0
  Beats-best_of e e' (inl h) = cc
  Beats-best_of e e' (inr h) = h

  Beats-trans :
      (b : Best) (e e' : Text × MuxEntry) → Beats b e → length e.0 ≤ length e'.0 → Beats b e'
  Beats-trans b e e' (inl h) q = inl h
  Beats-trans b e e' (inr h) q = inr (omega arith)

  match_from_lem :
      (b : Best) (m : List (Text × MuxEntry))
      → Kept b m (match_from path b m) ⊎ Improved b m (match_from path b m)
  unfolding match_from
  match_from_lem b [] = inl (refl, tt)
  match_from_lem b (e ∷ m) = join (match_step_cases b e) (match_from_lem (match_step path b e) m)
    where
      r : Best
      r = match_from path (match_step path b e) m

      join :
          ((match_step path b e ≡ b) × Beaten b e)
            ⊎ ((match_step path b e ≡ best_of e) × (path_match e.0 path ≡ true) × Beats b e)
          → Kept (match_step path b e) m r ⊎ Improved (match_step path b e) m r
          → Kept b (e ∷ m) r ⊎ Improved b (e ∷ m) r
      join (inl (same, low)) (inl (kept, rest)) = inl (kept ∙ same, (low, rw same at rest))
      join (inl (same, low)) (inr (e', found, best, beats)) =
          let beats' : Beats b e' = rw same at beats in
          inr (
            e',
            found,
            record {
              listed = Memᴰ.tail best.listed;
              matches = best.matches;
              longest = (AtMost-of_Beats b e e' low beats', best.longest);
            },
            beats',
          )
      join (inr (new, matches, high)) (inl (kept, rest)) = inr (
        e,
        kept ∙ new,
        record {
          listed = Memᴰ.head refl;
          matches = matches;
          longest =
              ((λ q. omega arith), Beaten-AtMost (best_of e) _ (omega arith) m (rw new at rest));
        },
        high,
      )
      join (inr (new, matches, high)) (inr (e', found, best, beats)) =
          let longer = Beats-best_of e e' (rw new at beats) in
          inr (
            e',
            found,
            record {
              listed = Memᴰ.tail best.listed;
              matches = best.matches;
              longest = ((λ q. longer), best.longest);
            },
            Beats-trans b e e' high longer,
          )

-- `match` finds nothing, with the empty pattern, exactly if no pattern of the map matches; else it
-- returns the handler and the pattern of an entry that matches and whose key no other key that
-- matches is longer than.
pub match_longest : (mux : XMux) (path : Text) → Chosen path mux.m (match mux path)
unfolding match
match_longest mux path = elim (match_from_lem path no_match mux.m) [
  | inl (kept, rest) ↦ inl (kept, All-of_mem _ mux.m (λ e l. false_of_Beaten e (All-mem _ rest l)))
  | inr (e, found, best, beats) ↦ inr (e, found, best)
]
  where
    false_of_Beaten : (e : Text × MuxEntry) → Beaten path no_match e → path_match e.0 path ≡ false
    false_of_Beaten e h = elim (Bool-cases (path_match e.0 path)) [
      | inl matches ↦ absurd ((h matches).0 refl)
      | inr other ↦ other
    ]

-- Two maps with the same entries, in whatever order, give the same handler and pattern, if no key
-- has two entries.
pub match_order :
    (mux mux' : XMux) (path : Text)
    → IsMap mux.m
    → ((e : Text × MuxEntry) → Memᴰ e mux.m → Memᴰ e mux'.m)
    → ((e : Text × MuxEntry) → Memᴰ e mux'.m → Memᴰ e mux.m)
    → match mux path ≡ match mux' path
match_order mux mux' path distinct to from =
    order (match_longest mux path) (match_longest mux' path)
  where
    order :
        Chosen path mux.m (match mux path)
        → Chosen path mux'.m (match mux' path)
        → match mux path ≡ match mux' path
    order (inl (p, a)) (inl (q, b)) = p ∙ sym q
    order (inl (p, a)) (inr (e, q, best)) =
        let missed = All-mem _ a (from e best.listed) in let hit = best.matches in absurd (cc)
    order (inr (e, p, best)) (inl (q, b)) =
        let missed = All-mem _ b (to e best.listed) in let hit = best.matches in absurd (cc)
    order (inr (e, p, best)) (inr (e', q, best')) =
        let same : length e.0 ≡ length e'.0 = omega (
          arith,
          All-mem _ best.longest (from e' best'.listed) best'.matches,
          All-mem _ best'.longest (to e best.listed) best.matches,
        ) in
        let key = path_match_unique e.0 e'.0 path best.matches best'.matches same in
        p
        ∙ ap best_of (entry_unique e e' mux.m distinct best.listed (from e' best'.listed) key)
        ∙ sym q

pub path_match_self : (k : Text) → k ≢ [] → path_match k k ≡ true
unfolding path_match
path_match_self [] ne = absurd (ne refl)
path_match_self (c ∷ k) ne = ground (
  arith,
  text_eq_iff (c ∷ k) (c ∷ k),
  text_eq_iff (take (length (c ∷ k)) (c ∷ k)) (c ∷ k),
  take-length (c ∷ k),
)

pub length-path_match : (k path : Text) → path_match k path ≡ true → length k ≤ length path
length-path_match k path h =
    omega (arith, ap (length {A = ℕ}) (take-path_match k path h), length-take (length k) path)

-- The entry whose key is the path itself is chosen.
pub match_exact :
    (mux : XMux) (key : Text) (v : MuxEntry)
    → IsMap mux.m
    → key ≢ []
    → lookup key mux.m ≡ some v
    → match mux key ≡ best_of (key, v)
match_exact mux key v distinct ne found = elim (match_longest mux key) [
  | inl (nothing, none_matches) ↦
      let missed = All-mem _ none_matches here in let hit = path_match_self key ne in absurd (cc)
  | inr (e, chosen, best) ↦
      let same : length e.0 ≡ length key = omega (
        arith,
        length-path_match e.0 key best.matches,
        All-mem _ best.longest here (path_match_self key ne),
      ) in
      let same_key = path_match_unique e.0 key key best.matches (path_match_self key ne) same in
      chosen ∙ ap best_of (entry_unique e (key, v) mux.m distinct best.listed here same_key)
]
  where
    here : Memᴰ (key, v) mux.m
    here = mem_of_lookup key v mux.m found
