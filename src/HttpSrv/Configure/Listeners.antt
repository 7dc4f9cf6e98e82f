-- ===== src/HttpSrv/Configure/Listeners.antt =====
-- The listeners of the private side after a configuration.
use srv_app.Base.{
  ℤ, is_positive, Bool, true, false, ◌||◌, Text, ok, ◌≡◌, arith, sym, subst, ◌⊎◌, Memᴰ,
}
use srv_app.Dict.{member, IsMap}
use srv_app.HttpSrv.{HttpSrv, Side, in_nets, is_ignore_addr}
use srv_app.HttpSrv.Restart.{restart_private_http, restart_public_http}
use srv_app.HttpSrv.Restart.Sides.{restart_private_http-private}
use srv_app.HttpSrv.Configure.{
  Settings, Host, is_changed, set_side, configure, configure_tls, set_honor, restart_changed,
}
use srv_app.HttpSrv.Configure.Laws.{IsSetTo}
use srv_app.HttpSrv.Configure.Effect.{configure_steps}

module _ {Ip Subnet : Type 0} (host : Host Ip Subnet) where
  -- An address of the private side: local, in a private net and not to be ignored, with a port of
  -- the settings that is switched on.
  abbrev pub IsPrivateAddr : Settings → Text → Type 0
  IsPrivateAddr s k =
      (x : Text) × (p : ℤ) × Memᴰ x host.local_addrs
      × (in_nets host.contains host.parse_ip host.private_nets x ≡ true)
      × (is_ignore_addr s.ignore_addrs x ≡ false)
      × ((p ≡ s.private_settings.port) ⊎ (p ≡ s.private_settings.tls_port))
      × (is_positive p ≡ true)
      × (host.join x p ≡ k)

  pub private_restarted :
      (q : Bool) (srv : HttpSrv)
      → (restart_changed host true q srv).private_side
        ≡ (restart_private_http host.contains host.parse_ip host.private_nets host.join
            host.private_sockets host.local_addrs srv).private_side
  unfolding restart_changed restart_public_http
  private_restarted q srv = ground arith

  -- The state in front of the restarts.
  abbrev pub before : Side → Side → HttpSrv → Settings → HttpSrv
  before private public srv s =
      set_honor
        (configure_tls
          (record {
            private_side = private;
            public_side = public;
            ignore_addrs = s.ignore_addrs;
            tls_cfg = srv.tls_cfg;
          })
          s.cert_map s.tls_redirect)
        s.honor_x_forwarded_for

  before_lem :
      (private public : Side) (srv : HttpSrv) (s : Settings)
      → IsSetTo srv.private_side s.private_settings private
      → let t = before private public srv s in
        (t.private_side.listeners ≡ srv.private_side.listeners)
        × (t.private_side.port ≡ s.private_settings.port)
        × (t.private_side.tls_port ≡ s.private_settings.tls_port)
        × (t.ignore_addrs ≡ s.ignore_addrs)
  unfolding set_honor configure_tls set_side
  before_lem private public srv s (reg, _, _) = ground (arith, reg)

  -- A configuration that changes a port or the directory of the private side, or forces a restart,
  -- leaves a private listener only on a local address in a private net that is not to be ignored, at
  -- a port of its settings that is switched on.
  pub configure-private :
      (srv srv' : HttpSrv) (s : Settings) (k : Text)
      → IsMap srv.private_side.listeners
      → (is_changed srv.private_side s.private_settings || s.force_restart) ≡ true
      → configure host srv s ≡ ok srv'
      → member k srv'.private_side.listeners ≡ true
      → IsPrivateAddr s k
  configure-private srv srv' s k distinct restarts e found =
      let (private, public, set_private, _, same) = configure_steps host srv srv' s e in
      let t = before private public srv s in
      let (listeners, port, tls_port, ignored) = before_lem private public srv s set_private in
      let there = rw (same, restarts) at found in
      let on_t =
        rw (private_restarted (is_changed srv.public_side s.public_settings || s.force_restart) t)
          at there in
      let (x, p, local, private_net, kept, of_settings, on, key) =
        restart_private_http-private host.contains host.parse_ip host.private_nets host.join
          host.private_sockets host.local_addrs t k (subst IsMap (sym listeners) distinct) on_t in
      (x, p, local, private_net, rw ignored at kept, rw (port, tls_port) at of_settings, on, key)
