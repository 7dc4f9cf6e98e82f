-- ===== src/Mux/Table/Order.antt =====
-- Two registrations in either order.
use srv_app.Base.{
  ℕ, ◌≡◌, ◌≢◌, refl, sym, ap, ◌∙◌, true, false, [], ◌∷◌, ◌++◌, Text, text_eq_iff, length, take,
  get_or, ◌-◌, ◌==◌, arith, ok, append_assoc,
}
use mathlib.Core.Quot
use srv_app.Dict.{lookup, IsMap}
use srv_app.Mux.{
  UriHandler, XMux, slash, colon, make_key, ends_slash, is_explicit, add_entries, handle, match,
  find,
}
use srv_app.Mux.Register.{
  trim, handle_branches, handle-add_entries, handle-IsMap, lookup-add_entries,
}
use srv_app.Mux.Table.{table, match_in, match-match_in}

-- A pattern with a slash at its end is what it is trimmed to, and the slash.
take-slash :
    (c : ℕ) (p : Text)
    → (get_or (c ∷ p) (length p) 0 == slash) ≡ true
    → take (length p) (c ∷ p) ++ (slash ∷ []) ≡ c ∷ p
take-slash c [] h = ground arith
take-slash c (d ∷ p) h = ap (◌∷◌ c) (take-slash d p h)

trim-slash : (p : Text) → ends_slash p ≡ true → trim p ++ (slash ∷ []) ≡ p
unfolding ends_slash
trim-slash [] h = cc
trim-slash (c ∷ p) h =
    let same : length (c ∷ p) - 1 ≡ length p = omega arith in
    rw same (take-slash c p (rw same at h))

make_key-trim :
    (u : UriHandler)
    → ends_slash u.pattern ≡ true
    → make_key u.method (trim u.pattern) ++ (slash ∷ []) ≡ make_key u.method u.pattern
make_key-trim u h =
    append_assoc u.method (colon ∷ trim u.pattern) (slash ∷ [])
    ∙ ap (λ (p : Text). make_key u.method p) (trim-slash u.pattern h)

-- The keys of two implicit redirects differ if those of their patterns do.
implicit_keys :
    (u v : UriHandler)
    → ends_slash u.pattern ≡ true
    → ends_slash v.pattern ≡ true
    → make_key u.method (trim u.pattern) ≡ make_key v.method (trim v.pattern)
    → make_key u.method u.pattern ≡ make_key v.method v.pattern
implicit_keys u v h h' same =
    sym (make_key-trim u h) ∙ ap (λ (k : Text). k ++ (slash ∷ [])) same ∙ make_key-trim v h'

-- Two additions, one after the other.
abbrev then_add : (Text → Text) → XMux → UriHandler → UriHandler → XMux
then_add path_string mux x y =
    add_entries path_string (add_entries path_string mux x (trim x.pattern)) y (trim y.pattern)

module _ (path_string : Text → Text) (mux : XMux) (u v : UriHandler) where
  lookup_either :
      (key : Text)
      → make_key u.method u.pattern ≢ make_key v.method v.pattern
      → lookup key (then_add path_string mux u v).m ≡ lookup key (then_add path_string mux v u).m
  unfolding is_explicit
  lookup_either key ne = ground (
    arith,
    lookup-add_entries path_string (add_entries path_string mux u (trim u.pattern)) v key,
    lookup-add_entries path_string (add_entries path_string mux v (trim v.pattern)) u key,
    lookup-add_entries path_string mux u key,
    lookup-add_entries path_string mux v key,
    implicit_keys u v,
    text_eq_iff (make_key u.method u.pattern) key,
    text_eq_iff (make_key v.method v.pattern) key,
    text_eq_iff (make_key u.method (trim u.pattern)) key,
    text_eq_iff (make_key v.method (trim v.pattern)) key,
  )

  hosts_either : (then_add path_string mux u v).hosts ≡ (then_add path_string mux v u).hosts
  unfolding add_entries
  hosts_either = ground arith

  -- The second of two registrations that return is for another key, and each returns on the
  -- multiplexer as it was, and the other then.
  either_returns :
      {a b : XMux}
      → handle path_string mux u ≡ ok a
      → handle path_string a v ≡ ok b
      → (make_key u.method u.pattern ≢ make_key v.method v.pattern)
        × (handle path_string mux v ≡ ok (add_entries path_string mux v (trim v.pattern)))
        × (handle path_string (add_entries path_string mux v (trim v.pattern)) u
            ≡ ok (then_add path_string mux v u))
        × (b ≡ then_add path_string mux u v)
  unfolding is_explicit
  either_returns {a = a} {b = b} e e' =
      let k = make_key u.method u.pattern in
      let k' = make_key v.method v.pattern in
      let (fresh, first) = handle-add_entries path_string mux a u e in
      let (fresh', second) = handle-add_entries path_string a b v e' in
      let there : is_explicit k' (add_entries path_string mux u (trim u.pattern)).m ≡ false =
        rw first at fresh' in
      let differ : k ≢ k' = λ same.
        ground (arith, there, lookup-add_entries path_string mux u k', text_eq_iff k k', same) in
      (
        differ,
        ground (
          arith,
          there,
          lookup-add_entries path_string mux u k',
          differ,
          text_eq_iff k k',
          handle_branches path_string mux v,
          handle_branches path_string a v,
        ),
        ground (
          arith,
          fresh,
          lookup-add_entries path_string mux v k,
          differ,
          text_eq_iff k' k,
          handle_branches path_string mux u,
          handle_branches path_string (add_entries path_string mux v (trim v.pattern)) u,
        ),
        second ∙ ap (λ (x : XMux). add_entries path_string x v (trim v.pattern)) first,
      )

-- The method `handler` sees no more of a multiplexer than its table and its flag.
find-table :
    (mux mux' : XMux) (h : IsMap mux.m) (h' : IsMap mux'.m)
    → table mux h ≡ table mux' h'
    → mux.hosts ≡ mux'.hosts
    → (host method path : Text) → find mux host method path ≡ find mux' host method path
unfolding find
find-table mux mux' h h' same hosts host method path =
    let matches : (p : Text) → match mux p ≡ match mux' p =
      λ p. match-match_in mux h p ∙ ap (match_in p) same ∙ sym (match-match_in mux' h' p) in
    rw (matches (host ++ make_key method path), matches (make_key method path), hosts) refl

-- Registration is a matter of what is registered, not of the order: if two registrations return one
-- after the other, on a map with distinct keys, they return in the other order too; both orders leave
-- the same table, and so find the same handler with the same pattern for every request.
pub register_order :
    (path_string : Text → Text) (mux a b : XMux) (u v : UriHandler) (distinct : IsMap mux.m)
    → handle path_string mux u ≡ ok a
    → handle path_string a v ≡ ok b
    → (a' : XMux) × (b' : XMux) × (handle path_string mux v ≡ ok a')
      × (handle path_string a' u ≡ ok b')
      × ((h : IsMap b.m) × (h' : IsMap b'.m) × (table b h ≡ table b' h'))
      × ((host method path : Text) → find b host method path ≡ find b' host method path)
register_order path_string mux a b u v distinct e e' =
    let (differ, made, made', same) = either_returns path_string mux u v e e' in
    let a' = add_entries path_string mux v (trim v.pattern) in
    let b' = then_add path_string mux v u in
    let h = handle-IsMap path_string a b v (handle-IsMap path_string mux a u distinct e) e' in
    let h' =
      handle-IsMap path_string a' b' u (handle-IsMap path_string mux a' v distinct made) made' in
    let tables : table b h ≡ table b' h' = Quot.sound (λ key.
      ap (λ (x : XMux). lookup key x.m) same ∙ lookup_either path_string mux u v key differ) in
    (
      a',
      b',
      made,
      made',
      (h, h', tables),
      find-table b b' h h' tables
          (ap (λ (x : XMux). x.hosts) same ∙ hosts_either path_string mux u v),
    )
