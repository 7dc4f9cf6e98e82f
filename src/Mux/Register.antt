-- ===== src/Mux/Register.antt =====
-- Registration and removal of handlers.
use srv_app.Base.{
  ℕ, ◌-◌, ◌≡◌, refl, ◌⊎◌, inl, inr, true, false, [], ◌∷◌, none, some, Text, text_eq, text_eq_iff,
  text_eq_refl, if◌then◌else◌, arith, Bool-cases, ap, length, take, ◌≢◌, ok, panic, Panic,
  length-take, length-append, ◌+◌, ◌==◌, ◌&&◌, not,
}
use srv_app.Dict.{IsMap, lookup, insert, delete}
use srv_app.Dict.Laws.{lookup-insert, lookup-delete, insert-IsMap, delete-IsMap}
use srv_app.Mux.Keys.{make_key-ne-nil, length-ne-zero}
use srv_app.Mux.Match.{match_exact}
use srv_app.Mux.{
  match, Best, UriHandler, MuxEntry, XMux, is_nil, make_key, colon, drop_last, is_explicit,
  ends_slash, helper, add_entries, handle, remove_handle_func,
}

-- The pattern without its last byte.
abbrev pub trim : Text → Text
trim p = take (length p - 1) p

drop_last-trim : (p : Text) → p ≢ [] → drop_last p ≡ ok (trim p)
unfolding drop_last
drop_last-trim [] ne = absurd (ne refl)
drop_last-trim (c ∷ p) ne = ap (λ (n : ℕ). ok (take n (c ∷ p))) (omega arith)

nil_of_length : (p : Text) → (length p == 0) ≡ true → p ≡ []
nil_of_length [] h = refl
nil_of_length (c ∷ p) h = absurd (ground arith)

ends_slash-ne-nil : (p : Text) → ends_slash p ≡ true → p ≢ []
unfolding ends_slash
ends_slash-ne-nil [] h = cc
ends_slash-ne-nil (c ∷ p) h = λ e. cc

length-trim : (p : Text) → p ≢ [] → length (trim p) + 1 ≡ length p
length-trim [] ne = absurd (ne refl)
length-trim (c ∷ p) ne = omega (arith, length-take (length (c ∷ p) - 1) (c ∷ p))

-- The key of the implicit redirect differs from the key of the pattern.
trim-key_ne : (method p : Text) → ends_slash p ≡ true → make_key method (trim p) ≢ make_key method p
trim-key_ne method p h e = absurd (
    omega (
      arith,
      ap (length {A = ℕ}) e,
      length-append method (colon ∷ trim p),
      length-append method (colon ∷ p),
      length-trim p (ends_slash-ne-nil p h),
    ))

module _ (path_string : Text → Text) where
  -- On the empty pattern `Handle` panics on the slice `Pattern[0:-1]`, before its own check.
  handle_empty :
      (mux : XMux) (u : UriHandler)
      → u.pattern ≡ []
      → handle path_string mux u ≡ panic Panic.slice_bounds
  unfolding handle drop_last
  handle_empty mux u e = rw e

  handle_checks :
      (mux : XMux) (u : UriHandler)
      → u.pattern ≢ []
      → handle path_string mux u ≡ (
          if is_nil u.handler
          then panic Panic.nil_handler
          else if is_explicit (make_key u.method u.pattern) mux.m
          then panic Panic.multiple_registrations
          else ok (add_entries path_string mux u (trim u.pattern)))
  unfolding handle
  handle_checks mux u h = rw (drop_last-trim u.pattern h, length-ne-zero u.pattern h) (ground arith)

  pub handle_branches :
      (mux : XMux) (u : UriHandler)
      → handle path_string mux u ≡ (
          if length u.pattern == 0
          then panic Panic.slice_bounds
          else if is_nil u.handler
          then panic Panic.nil_handler
          else if is_explicit (make_key u.method u.pattern) mux.m
          then panic Panic.multiple_registrations
          else ok (add_entries path_string mux u (trim u.pattern)))
  handle_branches mux u = elim (Bool-cases (length u.pattern == 0)) [
    | inl empty ↦ rw empty (handle_empty mux u (nil_of_length u.pattern empty))
    | inr some_byte ↦
        rw some_byte (handle_checks mux u (λ e. cc (ap (λ (p : Text). length p == 0) e)))
  ]

  add_entries-IsMap :
      (mux : XMux) (u : UriHandler) (trimmed : Text)
      → IsMap mux.m
      → IsMap (add_entries path_string mux u trimmed).m
  unfolding add_entries
  add_entries-IsMap mux u trimmed h = ground (
    arith,
    insert-IsMap (make_key u.method u.pattern)
        (record { explicit = true; h = u; pattern = u.pattern }) mux.m h,
    insert-IsMap (make_key u.method trimmed)
        (record { explicit = false; h = helper path_string u trimmed; pattern = u.pattern })
        (insert (make_key u.method u.pattern)
          (record { explicit = true; h = u; pattern = u.pattern }) mux.m),
  )

  pub lookup-add_entries :
      (mux : XMux) (u : UriHandler) (key : Text)
      → lookup key (add_entries path_string mux u (trim u.pattern)).m ≡ (
          if text_eq (make_key u.method u.pattern) key
          then some (record { explicit = true; h = u; pattern = u.pattern })
          else if ends_slash u.pattern
              && text_eq (make_key u.method (trim u.pattern)) key
              && not (is_explicit key mux.m)
          then some (record {
            explicit = false;
            h = helper path_string u (trim u.pattern);
            pattern = u.pattern;
          })
          else lookup key mux.m)
  unfolding add_entries is_explicit
  lookup-add_entries mux u key =
      let k = make_key u.method u.pattern in
      let k' = make_key u.method (trim u.pattern) in
      let e : MuxEntry = record { explicit = true; h = u; pattern = u.pattern } in
      let e' : MuxEntry = record {
        explicit = false;
        h = helper path_string u (trim u.pattern);
        pattern = u.pattern;
      } in
      ground (
        arith,
        lookup-insert k key e mux.m,
        lookup-insert k k' e mux.m,
        lookup-insert k' key e' (insert k e mux.m),
        trim-key_ne u.method u.pattern,
        text_eq_iff k key,
        text_eq_iff k k',
        text_eq_iff k' key,
      )

  pub handle-add_entries :
      (mux mux' : XMux) (u : UriHandler)
      → handle path_string mux u ≡ ok mux'
      → (is_explicit (make_key u.method u.pattern) mux.m ≡ false)
        × (mux' ≡ add_entries path_string mux u (trim u.pattern))
  handle-add_entries mux mux' u e = ground (arith, handle_branches mux u)

  -- A registration that returns keeps the keys of the map distinct.
  pub handle-IsMap :
      (mux mux' : XMux) (u : UriHandler)
      → IsMap mux.m
      → handle path_string mux u ≡ ok mux'
      → IsMap mux'.m
  handle-IsMap mux mux' u h e =
      rw ((handle-add_entries mux mux' u e).1) (add_entries-IsMap mux u (trim u.pattern) h)

  -- After a registration that returns, on a map with distinct keys, the multiplexer finds the new
  -- handler, with its pattern, for the key of the method and the path that are the handler's own.
  pub match-handle :
      (mux mux' : XMux) (u : UriHandler)
      → IsMap mux.m
      → handle path_string mux u ≡ ok mux'
      → let b = match mux' (make_key u.method u.pattern) in (b.h ≡ some u) × (b.pattern ≡ u.pattern)
  match-handle mux mux' u h e =
      let k = make_key u.method u.pattern in
      let v : MuxEntry = record { explicit = true; h = u; pattern = u.pattern } in
      let found : lookup k mux'.m ≡ some v =
        rw ((handle-add_entries mux mux' u e).1)
          (rw (lookup-add_entries mux u k, text_eq_refl k) refl) in
      let chosen =
        match_exact mux' k v (handle-IsMap mux mux' u h e) (make_key-ne-nil u.method u.pattern)
          found in
      (ap (λ (b : Best). b.h) chosen, ap (λ (b : Best). b.pattern) chosen)

-- `RemoveHandleFunc` undoes a registration that returned: every lookup is as before, if the map had
-- no entry under the key of the pattern and none that is implicit under the key without the
-- trailing slash.
pub remove-handle :
    (path_string : Text → Text) (mux mux' : XMux) (u : UriHandler) (key : Text)
    → lookup (make_key u.method u.pattern) mux.m ≡ none
    → (lookup (make_key u.method (trim u.pattern)) mux.m ≡ none)
      ⊎ (is_explicit (make_key u.method (trim u.pattern)) mux.m ≡ true)
    → handle path_string mux u ≡ ok mux'
    → lookup key (remove_handle_func mux' u.method u.pattern).m ≡ lookup key mux.m
unfolding remove_handle_func is_explicit
remove-handle path_string mux mux' u key fresh free e =
    let k = make_key u.method u.pattern in
    let k' = make_key u.method (trim u.pattern) in
    rw ((handle-add_entries path_string mux mux' u e).1) (
      ground (
        arith,
        lookup-add_entries path_string mux u key,
        lookup-add_entries path_string mux u k',
        lookup-delete k key (add_entries path_string mux u (trim u.pattern)).m,
        lookup-delete k k' (add_entries path_string mux u (trim u.pattern)).m,
        lookup-delete k' key (delete k (add_entries path_string mux u (trim u.pattern)).m),
        trim-key_ne u.method u.pattern,
        text_eq_iff k key,
        text_eq_iff k k',
        text_eq_iff k' key,
        text_eq_refl k',
      ))

pub remove-IsMap :
    (mux : XMux) (method pattern : Text)
    → IsMap mux.m
    → IsMap (remove_handle_func mux method pattern).m
unfolding remove_handle_func
remove-IsMap mux method pattern h =
    let m = delete (make_key method pattern) mux.m in
    ground (
      arith,
      delete-IsMap (make_key method pattern) mux.m h,
      delete-IsMap (make_key method (take (length pattern - 1) pattern)) m,
    )
