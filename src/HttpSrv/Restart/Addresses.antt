-- ===== src/HttpSrv/Restart/Addresses.antt =====
-- The addresses that a side wants: what the first loop of a restart collects.
use srv_app.Base.{
  ℤ, is_positive, Bool, true, ◌&&◌, ◌||◌, List, [], ◌∷◌, Text, ◌≡◌, refl, arith, text_eq,
  text_eq_iff, Bool-cases, inl, inr, ◌⊎◌, sym, Memᴰ, ◌∙◌,
}
use srv_app.Dict.{insert, member}
use srv_app.Dict.Laws.{lookup-insert}
use srv_app.HttpSrv.Restart.{Wanted, want_one, want, add_addr}
use srv_app.HttpSrv.Restart.Laws.{BothSelf, AreSelf}

insert-AreSelf : (a : Text) (l : List (Text × Text)) → AreSelf l → AreSelf (insert a a l)
unfolding insert
insert-AreSelf a [] h = (refl, tt)
insert-AreSelf a ((i, b) ∷ l) (same, h) = elim (Bool-cases (text_eq i a)) [
  | inl here ↦ rw here (refl, h)
  | inr later ↦ rw later (same, insert-AreSelf a l h)
]

module _ (join : Text → ℤ → Text) where
  -- `k` is the address of a local address of the side at a port that is switched on.
  abbrev pub IsAddrOf : (Text → Bool) → ℤ → List Text → Text → Type 0
  IsAddrOf on_side port addrs k =
      (x : Text) × Memᴰ x addrs × (on_side x ≡ true) × (is_positive port ≡ true) × (join x port ≡ k)

  add_addr-AreSelf :
      (x : Text) (port : ℤ) (l : List (Text × Text)) → AreSelf l → AreSelf (add_addr join x port l)
  add_addr-AreSelf x port l h = elim (Bool-cases (is_positive port)) [
    | inl on ↦ rw on (insert-AreSelf (join x port) l h)
    | inr off ↦ rw off h
  ]

  member-add_addr :
      (x : Text) (port : ℤ) (l : List (Text × Text)) (k : Text)
      → member k (add_addr join x port l)
        ≡ ((is_positive port && text_eq (join x port) k) || member k l)
  member-add_addr x port l k = ground (arith, lookup-insert (join x port) k (join x port) l)

  want_one-BothSelf :
      (on_side : Text → Bool) (port tls_port : ℤ) (x : Text) (w : Wanted)
      → BothSelf w
      → BothSelf (want_one join on_side port tls_port x w)
  unfolding want_one
  want_one-BothSelf on_side port tls_port x w (a, b) = elim (Bool-cases (on_side x)) [
    | inl on ↦ rw on (add_addr-AreSelf x port w.http a, add_addr-AreSelf x tls_port w.tls b)
    | inr off ↦ rw off (a, b)
  ]

  pub want-BothSelf :
      (on_side : Text → Bool) (port tls_port : ℤ) (addrs : List Text) (w : Wanted)
      → BothSelf w
      → BothSelf (want join on_side port tls_port addrs w)
  unfolding want
  want-BothSelf on_side port tls_port [] w h = h
  want-BothSelf on_side port tls_port (x ∷ addrs) w h =
      want-BothSelf on_side port tls_port addrs (want_one join on_side port tls_port x w)
        (want_one-BothSelf on_side port tls_port x w h)

  -- One round adds the two addresses of `x`, where its ports are switched on.
  member-want_one :
      (on_side : Text → Bool) (port tls_port : ℤ) (x : Text) (w : Wanted) (k : Text)
      → let r = want_one join on_side port tls_port x w in
        (member k r.http
          ≡ ((on_side x && (is_positive port && text_eq (join x port) k)) || member k w.http))
        × (member k r.tls ≡ (
            (on_side x && (is_positive tls_port && text_eq (join x tls_port) k)) || member k w.tls))
  unfolding want_one
  member-want_one on_side port tls_port x w k =
      ground (arith, member-add_addr x port w.http k, member-add_addr x tls_port w.tls k)

  module _ (on_side : Text → Bool) (port tls_port : ℤ) (k : Text) where
    IsAddrOf-here :
        (p : ℤ) (x : Text) (addrs : List Text)
        → (on_side x && (is_positive p && text_eq (join x p) k)) ≡ true
        → IsAddrOf on_side p (x ∷ addrs) k
    IsAddrOf-here p x addrs h =
        (x, Memᴰ.head refl, ground arith, ground arith, (text_eq_iff (join x p) k).0 (ground arith))

    IsAddrOf-later :
        (p : ℤ) (x : Text) (addrs : List Text)
        → IsAddrOf on_side p addrs k
        → IsAddrOf on_side p (x ∷ addrs) k
    IsAddrOf-later p x addrs (y, m, on, up, e) = (y, Memᴰ.tail m, on, up, e)

    or_cases : (a b : Bool) → (a || b) ≡ true → (a ≡ true) ⊎ (b ≡ true)
    or_cases a b h = ground arith

    split :
        (p : ℤ) (x : Text) (addrs : List Text) (old new : List (Text × Text))
        → member k new ≡ ((on_side x && (is_positive p && text_eq (join x p) k)) || member k old)
        → (member k new ≡ true) ⊎ IsAddrOf on_side p addrs k
        → (member k old ≡ true) ⊎ IsAddrOf on_side p (x ∷ addrs) k
    split p x addrs old new e (inr later) = inr (IsAddrOf-later p x addrs later)
    split p x addrs old new e (inl found) = elim (or_cases _ _ (sym e ∙ found)) [
      | inl here ↦ inr (IsAddrOf-here p x addrs here)
      | inr before ↦ inl before
    ]

    -- What the first loop finds was there before, or is the address of a local address.
    pub want_sound :
        (addrs : List Text) (w : Wanted)
        → let r = want join on_side port tls_port addrs w in
          (member k r.http ≡ true → (member k w.http ≡ true) ⊎ IsAddrOf on_side port addrs k)
          × (member k r.tls ≡ true → (member k w.tls ≡ true) ⊎ IsAddrOf on_side tls_port addrs k)
    unfolding want
    want_sound [] w = ((λ h. inl h), (λ h. inl h))
    want_sound (x ∷ addrs) w =
        let (plain, tls) = want_sound addrs (want_one join on_side port tls_port x w) in
        let (one, one_tls) = member-want_one on_side port tls_port x w k in
        (
          (λ h.
              split port x addrs w.http (want_one join on_side port tls_port x w).http one
                (plain h)),
          (λ h.
              split tls_port x addrs w.tls (want_one join on_side port tls_port x w).tls one_tls
                (tls h)),
        )

    -- A local address of the side is found, at each port that is switched on.
    pub want_complete :
        (addrs : List Text) (w : Wanted)
        → let r = want join on_side port tls_port addrs w in
          ((member k w.http ≡ true) ⊎ IsAddrOf on_side port addrs k → member k r.http ≡ true)
          × ((member k w.tls ≡ true) ⊎ IsAddrOf on_side tls_port addrs k → member k r.tls ≡ true)
    unfolding want
    want_complete [] w = ((λ h. found w.http port h), (λ h. found w.tls tls_port h))
      where
        found :
            (l : List (Text × Text)) (p : ℤ)
            → (member k l ≡ true) ⊎ IsAddrOf on_side p [] k
            → member k l ≡ true
        found l p (inl h) = h
        found l p (inr (x, m, on, up, key)) = elim m [ ]
    want_complete (x ∷ addrs) w =
        let (plain, tls) = want_complete addrs (want_one join on_side port tls_port x w) in
        let (one, one_tls) = member-want_one on_side port tls_port x w k in
        (
          (λ h. plain (join_up port w.http (want_one join on_side port tls_port x w).http one h)),
          (λ h.
              tls (join_up tls_port w.tls (want_one join on_side port tls_port x w).tls one_tls h)),
        )
      where
        join_up :
            (p : ℤ) (old new : List (Text × Text))
            → member k new
              ≡ ((on_side x && (is_positive p && text_eq (join x p) k)) || member k old)
            → (member k old ≡ true) ⊎ IsAddrOf on_side p (x ∷ addrs) k
            → (member k new ≡ true) ⊎ IsAddrOf on_side p addrs k
        join_up p old new e (inl before) = inl (ground arith)
        join_up p old new e (inr (y, Memᴰ.head same, on, up, key)) =
            inl (e ∙ rw (← same) (ground (arith, text_eq_iff (join y p) k)))
        join_up p old new e (inr (y, Memᴰ.tail m, on, up, key)) = inr (y, m, on, up, key)
