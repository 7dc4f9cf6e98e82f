-- ===== src/HttpSrv/Configure/Entries.antt =====
-- What a configuration can add to the multiplexers.
use srv_app.Base.{
  ℕ, ◌≡◌, Bool, true, false, ◌&&◌, ◌||◌, List, [], ◌∷◌, Memᴰ, Text, ok, >>=-eq-ok, arith,
  Bool-cases, inl, inr,
}
use srv_app.Dict.{insert}
use srv_app.Mux.{MuxEntry, XMux, UriHandler, func, redirect, handle, add_entries, helper, make_key}
use srv_app.Mux.Register.{trim, handle-add_entries}
use srv_app.HttpSrv.Register.{ok-inj}
use srv_app.HttpSrv.{HttpSrv, Side, register_side}
use srv_app.HttpSrv.Configure.{
  Settings, SideSettings, Host, get, root, on_priv_static_srv_uri, on_pub_static_srv_uri,
  is_changed, set_side, has_new_dir, configure_private, configure_public, configure_tls, set_honor,
  configure,
}
use srv_app.HttpSrv.Configure.Laws.{register_private_side, register_public_side}
use srv_app.HttpSrv.Configure.Effect.{restart_changed_lem}

-- Every entry passes the test.
abbrev pub all_pass : (MuxEntry → Bool) → List (Text × MuxEntry) → Bool
all_pass test [] = true
all_pass test ((k, v) ∷ m) = test v && all_pass test m

pub all_pass-mem :
    (test : MuxEntry → Bool) (m : List (Text × MuxEntry)) (e : Text × MuxEntry)
    → all_pass test m ≡ true
    → Memᴰ e m
    → test e.1 ≡ true
all_pass-mem test [] e h l = elim l [ ]
all_pass-mem test (x ∷ m) e h (Memᴰ.head same) = rw same (ground arith)
all_pass-mem test (x ∷ m) e h (Memᴰ.tail l) = all_pass-mem test m e (ground arith) l

module _ (test : MuxEntry → Bool) where
  all_pass-insert :
      (k : Text) (v : MuxEntry) (m : List (Text × MuxEntry))
      → test v ≡ true
      → all_pass test m ≡ true
      → all_pass test (insert k v m) ≡ true
  unfolding insert
  all_pass-insert k v [] h a = ground arith
  all_pass-insert k v (e ∷ m) h a = ground (arith, all_pass-insert k v m h)

  -- What the entries of a registration have to pass.
  abbrev pub Passes : UriHandler → Type 0
  Passes u =
      ((p : Text) → test (record { explicit = true; h = u; pattern = p }) ≡ true)
      × ((p q method url : Text) (level code : ℕ)
          → test (record {
            explicit = false;
            h = record {
              method = method;
              handler = redirect url code;
              pattern = p;
              required_access = level;
            };
            pattern = q;
          })
            ≡ true)

  module _ (path_string : Text → Text) where
    all_pass-add_entries :
        (mux : XMux) (u : UriHandler) (trimmed : Text)
        → Passes u
        → all_pass test mux.m ≡ true
        → all_pass test (add_entries path_string mux u trimmed).m ≡ true
    unfolding add_entries helper
    all_pass-add_entries mux u trimmed (own, redirected) a =
        let e : MuxEntry = record { explicit = true; h = u; pattern = u.pattern } in
        let e' : MuxEntry = record {
          explicit = false;
          h = helper path_string u trimmed;
          pattern = u.pattern;
        } in
        let first = all_pass-insert (make_key u.method u.pattern) e mux.m (own u.pattern) a in
        let second =
          all_pass-insert (make_key u.method trimmed) e'
            (insert (make_key u.method u.pattern) e mux.m)
            (redirected trimmed u.pattern u.method _ u.required_access 301) first in
        ground (arith, first, second)

    all_pass-register_side :
        (side side' : Side) (u : UriHandler)
        → Passes u
        → all_pass test side.mux.m ≡ true
        → register_side path_string side u ≡ ok side'
        → all_pass test side'.mux.m ≡ true
    unfolding register_side
    all_pass-register_side side side' u p a e =
        let (mux', handled, made) = >>=-eq-ok (handle path_string side.mux u) _ e in
        let entries : all_pass test mux'.m ≡ true =
          rw ((handle-add_entries path_string side.mux mux' u handled).1)
            (all_pass-add_entries side.mux u (trim u.pattern) p a) in
        rw (← ok-inj made) entries

-- The handlers of the static directories, as `Configure` registers them.
abbrev pub static_handler : ℕ → ℕ → UriHandler
static_handler f level = record {
  method = get;
  handler = func f;
  pattern = root;
  required_access = level;
}

module _ (p q : MuxEntry → Bool) where
  -- The entries of the private side pass one test, those of the public side another.
  abbrev pub AllPass : HttpSrv → Type 0
  AllPass srv =
      (all_pass p srv.private_side.mux.m ≡ true) × (all_pass q srv.public_side.mux.m ≡ true)

  abbrev pub PassStatic : SideSettings → SideSettings → Type 0
  PassStatic s t =
      Passes p (static_handler on_priv_static_srv_uri s.static_access_level)
      × Passes q (static_handler on_pub_static_srv_uri t.static_access_level)

  module _ (path_string : Text → Text) where
    configure_private-AllPass :
        (srv srv' : HttpSrv) (s : SideSettings)
        → Passes p (static_handler on_priv_static_srv_uri s.static_access_level)
        → AllPass srv
        → configure_private path_string srv s ≡ ok srv'
        → AllPass srv'
    unfolding configure_private set_side
    configure_private-AllPass srv srv' s pass (a, b) e =
        elim (Bool-cases (has_new_dir srv.private_side s)) [
          | inl new ↦
              let srv₀ : HttpSrv = record srv { private_side = set_side srv.private_side s } in
              let (side, registered, same) =
                register_private_side path_string srv₀ srv' get root on_priv_static_srv_uri
                  s.static_access_level (rw new at e) in
              rw same
                (all_pass-register_side p path_string srv₀.private_side side _ pass a registered, b)
          | inr old ↦ let made = rw old at e in rw (← ok-inj made) (a, b)
        ]

    configure_public-AllPass :
        (srv srv' : HttpSrv) (s : SideSettings)
        → Passes q (static_handler on_pub_static_srv_uri s.static_access_level)
        → AllPass srv
        → configure_public path_string srv s ≡ ok srv'
        → AllPass srv'
    unfolding configure_public set_side
    configure_public-AllPass srv srv' s pass (a, b) e =
        elim (Bool-cases (has_new_dir srv.public_side s)) [
          | inl new ↦
              let srv₀ : HttpSrv = record srv { public_side = set_side srv.public_side s } in
              let (side, registered, same) =
                register_public_side path_string srv₀ srv' get root on_pub_static_srv_uri
                  s.static_access_level (rw new at e) in
              rw same
                (a, all_pass-register_side q path_string srv₀.public_side side _ pass b registered)
          | inr old ↦ let made = rw old at e in rw (← ok-inj made) (a, b)
        ]

  -- If the handlers of the static directories pass the tests, a configuration that returns keeps
  -- every entry passing.
  pub configure-AllPass :
      {Ip Subnet : Type 0} (host : Host Ip Subnet) (srv srv' : HttpSrv) (s : Settings)
      → PassStatic s.private_settings s.public_settings
      → AllPass srv
      → configure host srv s ≡ ok srv'
      → AllPass srv'
  unfolding configure set_honor configure_tls
  configure-AllPass host srv srv' s (pass, pass') h e =
      let srv₀ : HttpSrv = record srv { ignore_addrs = s.ignore_addrs } in
      let (srv₁, first, rest) =
        >>=-eq-ok (configure_private host.path_string srv₀ s.private_settings) _ e in
      let (srv₂, second, made) =
        >>=-eq-ok (configure_public host.path_string srv₁ s.public_settings) _ rest in
      let h₁ =
        configure_private-AllPass host.path_string srv₀ srv₁ s.private_settings pass h first in
      let h₂ =
        configure_public-AllPass host.path_string srv₁ srv₂ s.public_settings pass' h₁ second in
      let same =
        restart_changed_lem host (is_changed srv.private_side s.private_settings || s.force_restart)
          (is_changed srv.public_side s.public_settings || s.force_restart)
          (set_honor (configure_tls srv₂ s.cert_map s.tls_redirect) s.honor_x_forwarded_for) in
      rw (← ok-inj made) (rw (same.0.3, same.1.3) h₂)
