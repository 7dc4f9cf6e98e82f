-- ===== src/HttpSrv/Register.antt =====
-- Registration, on the table of handlers and the multiplexer of a side.
use srv_app.Base.{
  ℕ, true, false, [], ◌∷◌, Text, ◌≡◌, refl, arith, ok, text_eq, text_eq_iff, if◌then◌else◌, not,
  length, ◌==◌, panic, Panic, ◌||◌, >>=-eq-ok, take, ◌-◌,
}
use srv_app.Dict.{lookup, insert, delete, member, IsMap}
use srv_app.Dict.Laws.{lookup-insert, lookup-delete}
use srv_app.Mux.{
  UriHandler, XMux, make_key, handle, add_entries, is_explicit, remove_handle_func, check,
  starts_slash, func,
}
use srv_app.Mux.Register.{
  trim, handle-add_entries, handle-IsMap, handle_branches, remove-IsMap, lookup-add_entries,
}
use srv_app.HttpSrv.{
  HttpSrv, Side, HandlerType, private_handler, public_handler, all_handler, unknown_handler,
  register_side, register_on, register_handler, remove_side, remove_handler, new_http_srv,
}

-- The keys of the table are the explicit keys of the multiplexer, and the map of the multiplexer
-- has no key twice.
pub record InStep (side : Side) : Type 0 where
  pub same : (k : Text) → member k side.handlers ≡ is_explicit k side.mux.m
  pub distinct : IsMap side.mux.m

pub record AreInStep (srv : HttpSrv) : Type 0 where
  pub private : InStep srv.private_side
  pub public : InStep srv.public_side

-- The new server is in step.
pub new_http_srv-AreInStep : AreInStep new_http_srv
unfolding new_http_srv lookup is_explicit
new_http_srv-AreInStep = record {
  private = record { same = λ k. refl; distinct = tt };
  public = record { same = λ k. refl; distinct = tt };
}

pub is_explicit-add_entries :
    (path_string : Text → Text) (mux : XMux) (u : UriHandler) (k : Text)
    → is_explicit k (add_entries path_string mux u (trim u.pattern)).m
      ≡ (if text_eq (make_key u.method u.pattern) k then true else is_explicit k mux.m)
unfolding is_explicit
is_explicit-add_entries path_string mux u k = ground (arith, lookup-add_entries path_string mux u k)

is_explicit-remove :
    (mux : XMux) (method pattern k : Text)
    → is_explicit k (remove_handle_func mux method pattern).m
      ≡ (if text_eq (make_key method pattern) k then false else is_explicit k mux.m)
unfolding is_explicit remove_handle_func
is_explicit-remove mux method pattern k =
    let key = make_key method pattern in
    let short = make_key method (take (length pattern - 1) pattern) in
    ground (
      arith,
      lookup-delete key k mux.m,
      lookup-delete key short mux.m,
      lookup-delete short k (delete key mux.m),
      text_eq_iff key k,
      text_eq_iff short k,
      text_eq_iff key short,
    )

length_of_starts_slash : (p : Text) → starts_slash p ≡ true → (length p == 0) ≡ false
unfolding starts_slash
length_of_starts_slash [] h = cc
length_of_starts_slash (c ∷ p) h = ground arith

pub ok-inj {ℓ} : {A : Type ℓ} {a b : A} → ok a ≡ ok b → a ≡ b
ok-inj e = cc

module _ (path_string : Text → Text) where
  register_side-InStep :
      (side side' : Side) (u : UriHandler)
      → InStep side
      → register_side path_string side u ≡ ok side'
      → InStep side'
  unfolding register_side
  register_side-InStep side side' u h e =
      let (mux', handled, made) = >>=-eq-ok (handle path_string side.mux u) _ e in
      let made' : ok (record side {
        handlers = insert (make_key u.method u.pattern) u side.handlers;
        mux = mux';
      })
          ≡ ok side' =
        made in
      rw (← ok-inj made') (record {
        same = λ k. ground (
          arith,
          h.same k,
          lookup-insert (make_key u.method u.pattern) k u side.handlers,
          handle-add_entries path_string side.mux mux' u handled,
          is_explicit-add_entries path_string side.mux u k,
        );
        distinct = handle-IsMap path_string side.mux mux' u h.distinct handled;
      })

  register_on-AreInStep :
      (srv srv' : HttpSrv) (t : HandlerType) (u : UriHandler)
      → AreInStep srv
      → register_on path_string srv t u ≡ ok srv'
      → AreInStep srv'
  unfolding register_on
  register_on-AreInStep srv srv' private_handler u h e =
      let (side, made, same) = >>=-eq-ok (register_side path_string srv.private_side u) _ e in
      let same' : ok (record srv { private_side = side }) ≡ ok srv' = same in
      rw (← ok-inj same') (record {
        private = register_side-InStep srv.private_side side u h.private made;
        public = h.public;
      })
  register_on-AreInStep srv srv' public_handler u h e =
      let (side, made, same) = >>=-eq-ok (register_side path_string srv.public_side u) _ e in
      let same' : ok (record srv { public_side = side }) ≡ ok srv' = same in
      rw (← ok-inj same') (record {
        private = h.private;
        public = register_side-InStep srv.public_side side u h.public made;
      })
  register_on-AreInStep srv srv' all_handler u h e =
      let (side, made, rest) = >>=-eq-ok (register_side path_string srv.private_side u) _ e in
      let (side', made', same) = >>=-eq-ok (register_side path_string srv.public_side u) _ rest in
      let same' : ok (record srv { private_side = side; public_side = side' }) ≡ ok srv' = same in
      rw (← ok-inj same') (record {
        private = register_side-InStep srv.private_side side u h.private made;
        public = register_side-InStep srv.public_side side' u h.public made';
      })
  register_on-AreInStep srv srv' unknown_handler u h e = rw (← ok-inj e) h

  -- A registration that returns keeps tables and multiplexers in step, on both sides and for every
  -- type of handler.
  pub register_handler-AreInStep :
      (srv srv' : HttpSrv) (method path : Text) (f : ℕ) (t : HandlerType) (level : ℕ)
      → AreInStep srv
      → register_handler path_string srv method path f t level ≡ ok srv'
      → AreInStep srv'
  unfolding register_handler
  register_handler-AreInStep srv srv' method path f t level h e =
      let (_, checked, made) =
        >>=-eq-ok (check (length path == 0 || not (starts_slash path)) Panic.bad_route_path) _ e in
      register_on-AreInStep srv srv' t
        (record { method = method; handler = func f; pattern = path; required_access = level }) h
        made

  -- A private registration on every branch, on a server that is in step: it panics if the path does
  -- not begin with a slash, or if a private handler stands under the method and the path; else it
  -- adds the handler to the private table and multiplexer and leaves the public side.
  register_private_branches :
      (srv : HttpSrv) (method path : Text) (f level : ℕ)
      → AreInStep srv
      → let u : UriHandler = record {
        method = method;
        handler = func f;
        pattern = path;
        required_access = level;
      } in
        let key = make_key method path in
        let side = srv.private_side in
        register_handler path_string srv method path f private_handler level ≡ (
          if not (starts_slash path)
          then panic Panic.bad_route_path
          else if member key side.handlers
          then panic Panic.multiple_registrations
          else ok (record srv {
            private_side = record side {
              handlers = insert key u side.handlers;
              mux = add_entries path_string side.mux u (trim path);
            };
          }))
  unfolding register_handler register_on register_side
  register_private_branches srv method path f level h = ground (
    arith,
    h.private.same (make_key method path),
    length_of_starts_slash path,
    handle_branches path_string srv.private_side.mux
        (record { method = method; handler = func f; pattern = path; required_access = level }),
  )

remove_side-InStep :
    (side : Side) (method path : Text) → InStep side → InStep (remove_side side method path)
unfolding remove_side
remove_side-InStep side method path h = record {
  same = λ k. ground (
    arith,
    h.same k,
    lookup-delete (make_key method path) k side.handlers,
    is_explicit-remove side.mux method path k,
  );
  distinct = remove-IsMap side.mux method path h.distinct;
}

-- A removal keeps the tables and the multiplexers of both sides in step.
remove_handler-AreInStep :
    (srv : HttpSrv) (method path : Text)
    → AreInStep srv
    → AreInStep (remove_handler srv method path)
unfolding remove_handler
remove_handler-AreInStep srv method path h = record {
  private = remove_side-InStep srv.private_side method path h.private;
  public = remove_side-InStep srv.public_side method path h.public;
}
