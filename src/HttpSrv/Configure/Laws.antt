-- ===== src/HttpSrv/Configure/Laws.antt =====
-- What a configuration brings about.
use srv_app.Base.{
  ℕ, is_positive, true, false, ◌&&◌, ◌||◌, not, Text, length, ◌==◌, ok, Panic, ◌≡◌, refl, arith,
  >>=-eq-ok, Bool-cases, inl, inr, text_eq_refl, sym,
}
use srv_app.Dict.{insert}
use srv_app.Mux.Register.{handle-add_entries}
use srv_app.HttpSrv.Register.{is_explicit-add_entries, ok-inj}
use srv_app.Mux.{handle, check, func, UriHandler, make_key, is_explicit, starts_slash}
use srv_app.HttpSrv.{
  register_on, register_side, HttpSrv, Side, private_handler, public_handler, register_handler,
}
use srv_app.HttpSrv.Configure.{
  Settings, SideSettings, get, root, on_priv_static_srv_uri, on_pub_static_srv_uri, set_side,
  has_new_dir, configure_private, configure_public,
}

-- What a side has of its settings.
pub record Follows (s : Settings) (t : SideSettings) (side : Side) : Type 0 where
  pub port : side.port ≡ t.port
  pub tls_port : side.tls_port ≡ t.tls_port
  pub static_dir : side.static_dir ≡ t.static_dir
  pub redirect :
      side.mux.tls_redirect
      ≡ (not (length s.cert_map == 0) && (is_positive t.tls_port && s.tls_redirect))
  pub honor : side.mux.honor_x_forwarded_for ≡ s.honor_x_forwarded_for

-- A side with another table and another multiplexer, whose switches are the same.
abbrev pub IsRegistered : Side → Side → Type 0
IsRegistered side side' =
    (side'.port ≡ side.port)
    × (side'.tls_port ≡ side.tls_port)
    × (side'.static_dir ≡ side.static_dir)
    × (side'.listeners ≡ side.listeners)

register_side-IsRegistered :
    (path_string : Text → Text) (side side' : Side) (u : UriHandler)
    → register_side path_string side u ≡ ok side'
    → IsRegistered side side' × (is_explicit (make_key u.method u.pattern) side'.mux.m ≡ true)
unfolding register_side
register_side-IsRegistered path_string side side' u e =
    let (mux', handled, made) = >>=-eq-ok (handle path_string side.mux u) _ e in
    let made' : ok (record side {
      handlers = insert (make_key u.method u.pattern) u side.handlers;
      mux = mux';
    })
        ≡ ok side' =
      made in
    let explicit : is_explicit (make_key u.method u.pattern) mux'.m ≡ true = ground (
      arith,
      handle-add_entries path_string side.mux mux' u handled,
      is_explicit-add_entries path_string side.mux u (make_key u.method u.pattern),
      text_eq_refl (make_key u.method u.pattern),
    ) in
    rw (← ok-inj made') ((refl, refl, refl, refl), explicit)

module _ (path_string : Text → Text) (srv srv' : HttpSrv) (method path : Text) (f level : ℕ) where
  abbrev pub handler_of : UriHandler
  handler_of = record { method = method; handler = func f; pattern = path; required_access = level }

  pub register_private_side :
      register_handler path_string srv method path f private_handler level ≡ ok srv'
      → (side : Side) × (register_side path_string srv.private_side handler_of ≡ ok side)
        × (srv' ≡ record srv { private_side = side })
  unfolding register_handler register_on
  register_private_side e =
      let (_, checked, made) =
        >>=-eq-ok (check (length path == 0 || not (starts_slash path)) Panic.bad_route_path) _ e in
      let (side, registered, same) =
        >>=-eq-ok (register_side path_string srv.private_side handler_of) _ made in
      let same' : ok (record srv { private_side = side }) ≡ ok srv' = same in
      (side, registered, sym (ok-inj same'))

  pub register_public_side :
      register_handler path_string srv method path f public_handler level ≡ ok srv'
      → (side : Side) × (register_side path_string srv.public_side handler_of ≡ ok side)
        × (srv' ≡ record srv { public_side = side })
  unfolding register_handler register_on
  register_public_side e =
      let (_, checked, made) =
        >>=-eq-ok (check (length path == 0 || not (starts_slash path)) Panic.bad_route_path) _ e in
      let (side, registered, same) =
        >>=-eq-ok (register_side path_string srv.public_side handler_of) _ made in
      let same' : ok (record srv { public_side = side }) ≡ ok srv' = same in
      (side, registered, sym (ok-inj same'))

-- What is configured on one side: the settings are set, the listeners stay, and the handler of the
-- static files is there if there is a new directory.
abbrev pub IsSetTo : Side → SideSettings → Side → Type 0
IsSetTo side t side' =
    IsRegistered (set_side side t) side'
    × (has_new_dir side t ≡ true → is_explicit (make_key get root) side'.mux.m ≡ true)
    × (has_new_dir side t ≡ false → side' ≡ set_side side t)

pub configure_private_lem :
    (path_string : Text → Text) (srv srv' : HttpSrv) (t : SideSettings)
    → configure_private path_string srv t ≡ ok srv'
    → (side : Side) × (srv' ≡ record srv { private_side = side }) × IsSetTo srv.private_side t side
unfolding configure_private
configure_private_lem path_string srv srv' t e =
    elim (Bool-cases (has_new_dir srv.private_side t)) [
      | inl new ↦
          let srv₀ : HttpSrv = record srv { private_side = set_side srv.private_side t } in
          let made : register_handler path_string srv₀ get root on_priv_static_srv_uri
                private_handler t.static_access_level
              ≡ ok srv' =
            rw new at e in
          let (side, registered, same) =
            register_private_side path_string srv₀ srv' get root on_priv_static_srv_uri
              t.static_access_level made in
          let (is_registered, explicit) =
            register_side-IsRegistered path_string srv₀.private_side side _ registered in
          (side, same, (is_registered, (λ _. explicit), (λ old. absurd (cc))))
      | inr old ↦
          let made : ok (record srv { private_side = set_side srv.private_side t }) ≡ ok srv' =
            rw old at e in
          (
            set_side srv.private_side t,
            sym (ok-inj made),
            ((refl, refl, refl, refl), (λ new. absurd (cc)), (λ _. refl)),
          )
    ]

pub configure_public_lem :
    (path_string : Text → Text) (srv srv' : HttpSrv) (t : SideSettings)
    → configure_public path_string srv t ≡ ok srv'
    → (side : Side) × (srv' ≡ record srv { public_side = side }) × IsSetTo srv.public_side t side
unfolding configure_public
configure_public_lem path_string srv srv' t e = elim (Bool-cases (has_new_dir srv.public_side t)) [
  | inl new ↦
      let srv₀ : HttpSrv = record srv { public_side = set_side srv.public_side t } in
      let made : register_handler path_string srv₀ get root on_pub_static_srv_uri public_handler
            t.static_access_level
          ≡ ok srv' =
        rw new at e in
      let (side, registered, same) =
        register_public_side path_string srv₀ srv' get root on_pub_static_srv_uri
          t.static_access_level made in
      let (is_registered, explicit) =
        register_side-IsRegistered path_string srv₀.public_side side _ registered in
      (side, same, (is_registered, (λ _. explicit), (λ old. absurd (cc))))
  | inr old ↦
      let made : ok (record srv { public_side = set_side srv.public_side t }) ≡ ok srv' =
        rw old at e in
      (
        set_side srv.public_side t,
        sym (ok-inj made),
        ((refl, refl, refl, refl), (λ new. absurd (cc)), (λ _. refl)),
      )
]
