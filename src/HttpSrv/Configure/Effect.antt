-- ===== src/HttpSrv/Configure/Effect.antt =====
-- The state of the server after a configuration.
use srv_app.Base.{
  Bool, true, false, ◌||◌, none, some, length, ◌==◌, if◌then◌else◌, ok, panic, Panic, ◌≡◌, refl,
  arith, >>=-eq-ok, ap, ◌∙◌, sym, subst,
}
use srv_app.Mux.{make_key, is_explicit, func, starts_slash}
use srv_app.Mux.Register.{handle_branches}
use srv_app.HttpSrv.Register.{ok-inj}
use srv_app.HttpSrv.{HttpSrv, Side, register_handler, register_on, register_side}
use srv_app.HttpSrv.Restart.{restart_private_http, restart_public_http}
use srv_app.HttpSrv.Configure.{
  Settings, SideSettings, Host, get, root, on_priv_static_srv_uri, is_changed, set_side,
  has_new_dir, configure_private, configure_public, configure_tls, set_honor, restart_changed,
  configure,
}
use srv_app.HttpSrv.Configure.Laws.{Follows, IsSetTo, configure_private_lem, configure_public_lem}

not_new_of_unchanged :
    (side : Side) (t : SideSettings) → is_changed side t ≡ false → has_new_dir side t ≡ false
unfolding is_changed has_new_dir
not_new_of_unchanged side t h = ground arith

module _ {Ip Subnet : Type 0} (host : Host Ip Subnet) where
  -- The parts of a side that a restart leaves alone.
  abbrev pub SameBut : Side → Side → Type 0
  SameBut a b =
      (a.port ≡ b.port)
      × (a.tls_port ≡ b.tls_port)
      × (a.static_dir ≡ b.static_dir)
      × (a.mux ≡ b.mux)
      × (a.handlers ≡ b.handlers)

  pub restart_changed_lem :
      (p q : Bool) (srv : HttpSrv)
      → let srv' = restart_changed host p q srv in
        SameBut srv'.private_side srv.private_side
        × SameBut srv'.public_side srv.public_side
        × (srv'.ignore_addrs ≡ srv.ignore_addrs)
        × (srv'.tls_cfg ≡ srv.tls_cfg)
        × (p ≡ false → srv'.private_side ≡ srv.private_side)
        × (q ≡ false → srv'.public_side ≡ srv.public_side)
  unfolding restart_changed restart_private_http restart_public_http
  restart_changed_lem p q srv = ground arith

  -- The steps of a configuration that returns.
  pub configure_steps :
      (srv srv' : HttpSrv) (s : Settings)
      → configure host srv s ≡ ok srv'
      → (private : Side) × (public : Side) × IsSetTo srv.private_side s.private_settings private
        × IsSetTo srv.public_side s.public_settings public
        × (srv'
            ≡ restart_changed host
                (is_changed srv.private_side s.private_settings || s.force_restart)
                (is_changed srv.public_side s.public_settings || s.force_restart)
                (set_honor
                  (configure_tls
                    (record {
                      private_side = private;
                      public_side = public;
                      ignore_addrs = s.ignore_addrs;
                      tls_cfg = srv.tls_cfg;
                    })
                    s.cert_map
                    s.tls_redirect)
                  s.honor_x_forwarded_for))
  unfolding configure
  configure_steps srv srv' s e =
      let srv₀ : HttpSrv = record srv { ignore_addrs = s.ignore_addrs } in
      let (srv₁, first, rest) =
        >>=-eq-ok (configure_private host.path_string srv₀ s.private_settings) _ e in
      let (srv₂, second, made) =
        >>=-eq-ok (configure_public host.path_string srv₁ s.public_settings) _ rest in
      let (private, same, is_set) =
        configure_private_lem host.path_string srv₀ srv₁ s.private_settings first in
      let (public, same', is_set') =
        configure_public_lem host.path_string srv₁ srv₂ s.public_settings second in
      let set_public : IsSetTo srv.public_side s.public_settings public =
        subst (λ (t : HttpSrv). IsSetTo t.public_side s.public_settings public) same is_set' in
      let both : srv₂ ≡ record {
        private_side = private;
        public_side = public;
        ignore_addrs = s.ignore_addrs;
        tls_cfg = srv.tls_cfg;
      } =
        same' ∙ ap (λ (t : HttpSrv). record t { public_side = public }) same in
      (
        private,
        public,
        is_set,
        set_public,
        sym (ok-inj made)
            ∙ ap
                (λ (t : HttpSrv).
                  restart_changed host
                    (is_changed srv.private_side s.private_settings || s.force_restart)
                    (is_changed srv.public_side s.public_settings || s.force_restart)
                    (set_honor (configure_tls t s.cert_map s.tls_redirect) s.honor_x_forwarded_for))
                both,
      )

  -- A configuration that returns leaves both sides with the ports, the directory and the switches of
  -- the settings, TLS being redirected to exactly where there are certificates and a port for it,
  -- and the server with the addresses to ignore and the certificates.
  pub configure-Follows :
      (srv srv' : HttpSrv) (s : Settings)
      → configure host srv s ≡ ok srv'
      → Follows s s.private_settings srv'.private_side
        × Follows s s.public_settings srv'.public_side
        × (srv'.ignore_addrs ≡ s.ignore_addrs)
        × (srv'.tls_cfg ≡ (if length s.cert_map == 0 then none else some s.cert_map))
  unfolding set_side set_honor configure_tls
  configure-Follows srv srv' s e =
      let (private, public, (reg, _, _), (reg', _, _), same) = configure_steps srv srv' s e in
      let p = is_changed srv.private_side s.private_settings || s.force_restart in
      let q = is_changed srv.public_side s.public_settings || s.force_restart in
      let lem = restart_changed_lem p q (
        set_honor
          (configure_tls
            (record {
              private_side = private;
              public_side = public;
              ignore_addrs = s.ignore_addrs;
              tls_cfg = srv.tls_cfg;
            })
            s.cert_map s.tls_redirect)
          s.honor_x_forwarded_for) in
      rw same (ground (arith, lem, reg, reg'))

  -- The map of a multiplexer after a configuration is the one that the registration left.
  configure-explicit :
      (srv srv' : HttpSrv) (s : Settings)
      → configure host srv s ≡ ok srv'
      → has_new_dir srv.private_side s.private_settings ≡ true
      → is_explicit (make_key get root) srv'.private_side.mux.m ≡ true
  unfolding set_honor configure_tls
  configure-explicit srv srv' s e new =
      let (private, public, (_, here, _), _, same) = configure_steps srv srv' s e in
      let p = is_changed srv.private_side s.private_settings || s.force_restart in
      let q = is_changed srv.public_side s.public_settings || s.force_restart in
      let lem = restart_changed_lem p q (
        set_honor
          (configure_tls
            (record {
              private_side = private;
              public_side = public;
              ignore_addrs = s.ignore_addrs;
              tls_cfg = srv.tls_cfg;
            })
            s.cert_map s.tls_redirect)
          s.honor_x_forwarded_for) in
      rw same (rw (lem.0.3) (here new))

  configure_explicit_panics :
      (srv : HttpSrv) (s : Settings)
      → is_explicit (make_key get root) srv.private_side.mux.m ≡ true
      → has_new_dir srv.private_side s.private_settings ≡ true
      → configure host srv s ≡ panic Panic.multiple_registrations
  unfolding configure configure_private set_side register_handler register_on register_side
      starts_slash
  configure_explicit_panics srv s explicit new = ground (
    arith,
    handle_branches host.path_string srv.private_side.mux (record {
      method = get;
      handler = func on_priv_static_srv_uri;
      pattern = root;
      required_access = s.private_settings.static_access_level;
    }),
  )

  -- A second change of the private static directory panics: once a configuration has set a new
  -- directory that is not empty, any configuration with another one that is not empty panics on the
  -- registration of the handler that is there.
  pub configure_second_dir_panics :
      (srv srv' : HttpSrv) (s s' : Settings)
      → configure host srv s ≡ ok srv'
      → has_new_dir srv.private_side s.private_settings ≡ true
      → has_new_dir srv'.private_side s'.private_settings ≡ true
      → configure host srv' s' ≡ panic Panic.multiple_registrations
  configure_second_dir_panics srv srv' s s' e new new' =
      configure_explicit_panics srv' s' (configure-explicit srv srv' s e new) new'

  -- A configuration that changes no port and no directory of a server, and does not force a restart,
  -- returns, and leaves the listeners, the tables and the maps of both sides as they are.
  configure_unchanged :
      (srv : HttpSrv) (s : Settings)
      → is_changed srv.private_side s.private_settings ≡ false
      → is_changed srv.public_side s.public_settings ≡ false
      → s.force_restart ≡ false
      → (srv' : HttpSrv) × (configure host srv s ≡ ok srv')
        × (srv'.private_side.listeners ≡ srv.private_side.listeners)
        × (srv'.public_side.listeners ≡ srv.public_side.listeners)
        × (srv'.private_side.handlers ≡ srv.private_side.handlers)
        × (srv'.public_side.handlers ≡ srv.public_side.handlers)
        × (srv'.private_side.mux.m ≡ srv.private_side.mux.m)
        × (srv'.public_side.mux.m ≡ srv.public_side.mux.m)
  unfolding configure configure_private configure_public restart_changed set_side set_honor
      configure_tls
  configure_unchanged srv s p q r =
      let old = not_new_of_unchanged srv.private_side s.private_settings p in
      let old' = not_new_of_unchanged srv.public_side s.public_settings q in
      (
        set_honor
            (configure_tls
              (record {
                private_side = set_side srv.private_side s.private_settings;
                public_side = set_side srv.public_side s.public_settings;
                ignore_addrs = s.ignore_addrs;
                tls_cfg = srv.tls_cfg;
              })
              s.cert_map s.tls_redirect)
            s.honor_x_forwarded_for,
        rw (old, old', p, q, r) refl,
        refl,
        refl,
        refl,
        refl,
        refl,
        refl,
      )
