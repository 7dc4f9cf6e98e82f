-- ===== src/Mux/Keys.antt =====
-- The keys of the map: a method, a colon and a pattern.
use srv_app.Base.{
  ℕ, suc, ◌≤◌, ◌≡◌, ◌≢◌, refl, ◌↔◌, ◌⊎◌, inl, inr, true, false, [], ◌∷◌, ◌++◌, Text, text_eq_iff,
  length, take, get_or, arith, Bool-cases, ◌+◌, ap, All, All-append, length-append, sym, ◌∙◌, ◌==◌,
  append_assoc, length-take, take-length,
}
use native.Mathlib.Nat.{zero-add, suc-add}
use srv_app.Mux.Match.{take-path_match}
use srv_app.Mux.{colon, slash, make_key, ends_slash, starts_slash, path_match}

abbrev pub NoColon : Text → Type 0
NoColon s = All (λ c. c ≢ colon) s

-- A key is the beginning of another text of its form only if the methods are equal.
make_key-take :
    (a b p q : Text)
    → NoColon a
    → NoColon b
    → take (length (make_key a p)) (make_key b q) ≡ make_key a p
    → (a ≡ b) × (take (length p) q ≡ p)
make_key-take [] [] p q ha hb e = (refl, cc)
make_key-take [] (y ∷ b) p q ha (hy, hb) e = absurd (hy (cc))
make_key-take (x ∷ a) [] p q (hx, ha) hb e = absurd (hx (cc))
make_key-take (x ∷ a) (y ∷ b) p q (hx, ha) (hy, hb) e =
    let (same, rest) = make_key-take a b p q ha hb (cc) in (cc, rest)

pub make_key-ne-nil : (method path : Text) → make_key method path ≢ []
make_key-ne-nil [] path e = cc
make_key-ne-nil (c ∷ method) path e = cc

make_key-take_self :
    (a p q : Text)
    → take (length p) q ≡ p
    → take (length (make_key a p)) (make_key a q) ≡ make_key a p
make_key-take_self [] p q e = ap (◌∷◌ colon) e
make_key-take_self (x ∷ a) p q e = ap (◌∷◌ x) (make_key-take_self a p q e)

length-make_key : (a p : Text) → length (make_key a p) ≡ length a + length p + 1
length-make_key a p = omega (arith, length-append a (colon ∷ p))

get_or-append : (a p : Text) (i : ℕ) → get_or (a ++ p) (length a + i) 0 ≡ get_or p i 0
get_or-append [] p i = rw zero-add
get_or-append (x ∷ a) p i = rw suc-add (get_or-append a p i)

ends_slash-make_key : (a p : Text) → p ≢ [] → ends_slash (make_key a p) ≡ ends_slash p
ends_slash-make_key a [] ne = absurd (ne refl)
ends_slash-make_key a (c ∷ p) ne =
    unfold ends_slash in
    (ap (λ (i : ℕ). get_or (make_key a (c ∷ p)) i 0 == slash)
        (omega (arith, length-make_key a (c ∷ p)))
      ∙ ap (λ (d : ℕ). d == slash) (get_or-append a (colon ∷ c ∷ p) (suc (length p)))
      ∙ ap (λ (i : ℕ). get_or (c ∷ p) i 0 == slash) (omega arith))

take_full : (k path : Text) → take (length k) path ≡ k → length path ≡ length k → k ≡ path
take_full k path e same = sym e ∙ ap (λ (n : ℕ). take n path) (sym same) ∙ take-length path

length_of_eq : (k path : Text) → k ≡ path → length path ≡ length k
length_of_eq k path e = ap (length {A = ℕ}) (sym e)

length_of_take : (k path : Text) → take (length k) path ≡ k → length k ≤ length path
length_of_take k path e = omega (arith, ap (length {A = ℕ}) e, length-take (length k) path)

pub ne_of_length : (p : Text) → (length p == 0) ≡ false → p ≢ []
ne_of_length p h e = absurd (cc (ap (λ (q : Text). length q == 0) e))

pub length-ne-zero : (p : Text) → p ≢ [] → (length p == 0) ≡ false
length-ne-zero [] ne = absurd (ne refl)
length-ne-zero (c ∷ p) ne = ground arith

-- A pattern that is not empty matches the texts that begin with it, and only itself where it does
-- not end in a slash.
pub path_match_iff :
    (k path : Text)
    → k ≢ []
    → (path_match k path ≡ true)
      ↔ ((take (length k) path ≡ k) × ((ends_slash k ≡ true) ⊎ (length path ≡ length k)))
path_match_iff k path ne = (
  (λ h. (take-path_match k path h, to h)),
  (λ h.
      unfold path_match in
      ground (
        arith,
        length-ne-zero k ne,
        take_full k path,
        length_of_take k path,
        text_eq_iff k path,
        text_eq_iff (take (length k) path) k,
      )),
)
  where
    to : path_match k path ≡ true → (ends_slash k ≡ true) ⊎ (length path ≡ length k)
    to h = unfold path_match in ground (arith, length_of_eq k path, text_eq_iff k path)

-- With no colon in the methods, and no empty pattern, a key matches the key of a request exactly if
-- the methods are equal and the pattern matches the path.
path_match-make_key :
    (a b p q : Text)
    → NoColon a
    → NoColon b
    → p ≢ []
    → (path_match (make_key a p) (make_key b q) ≡ true) ↔ ((a ≡ b) × (path_match p q ≡ true))
path_match-make_key a b p q ha hb ne = (to, from)
  where
    key_ne : make_key a p ≢ []
    key_ne = make_key-ne-nil a p

    to : path_match (make_key a p) (make_key b q) ≡ true → (a ≡ b) × (path_match p q ≡ true)
    to h =
        let (begins, ends) = (path_match_iff (make_key a p) (make_key b q) key_ne).0 h in
        let (same, rest) = make_key-take a b p q ha hb begins in
        (
          same,
          (path_match_iff p q ne).1 (
            rest,
            ground (
              arith,
              ends_slash-make_key a p ne,
              length-make_key a p,
              length-make_key b q,
              ap (length {A = ℕ}) same,
            ),
          ),
        )

    from : (a ≡ b) × (path_match p q ≡ true) → path_match (make_key a p) (make_key b q) ≡ true
    from (same, h) =
        let (begins, ends) = (path_match_iff p q ne).0 h in
        rw (← same) (
          (path_match_iff (make_key a p) (make_key a q) key_ne).1 (
            make_key-take_self a p q begins,
            ground (arith, ends_slash-make_key a p ne, length-make_key a p, length-make_key a q),
          ))

starts_slash_of_match :
    (p path : Text) → p ≢ [] → path_match p path ≡ true → starts_slash path ≡ starts_slash p
unfolding starts_slash
starts_slash_of_match [] path ne h = absurd (ne refl)
starts_slash_of_match (c ∷ p) [] ne h = absurd (cc (take-path_match (c ∷ p) [] h))
starts_slash_of_match (c ∷ p) (d ∷ path) ne h = cc (take-path_match (c ∷ p) (d ∷ path) h)

-- A pattern that names a host, as `example.com/`, is never matched: its key begins with the method,
-- and the request's text with the host. (No method holds a colon, and the host names no port.)
host_pattern_unmatched :
    (method pattern host method' path : Text)
    → NoColon method
    → NoColon host
    → NoColon method'
    → pattern ≢ []
    → starts_slash pattern ≡ false
    → starts_slash path ≡ true
    → path_match (make_key method pattern) (host ++ make_key method' path) ≡ false
host_pattern_unmatched method pattern host method' path hm hh hm' ne named rooted =
    elim (Bool-cases (path_match (make_key method pattern) (host ++ make_key method' path))) [
      | inr other ↦ other
      | inl matches ↦
          let matches' : path_match (make_key method pattern) (make_key (host ++ method') path)
              ≡ true =
            rw (append_assoc host method' (colon ∷ path)) matches in
          let (same, h) =
            (path_match-make_key method (host ++ method') pattern path hm
                (All-append (λ c. c ≢ colon) host method' hh hm') ne).0
              matches' in
          absurd (cc (starts_slash_of_match pattern path ne h))
    ]
