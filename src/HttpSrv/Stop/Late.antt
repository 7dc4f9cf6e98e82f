-- ===== src/HttpSrv/Stop/Late.antt =====
-- A configuration behind `HttpSrv.Shutdown`: `netShutdown` closes the listeners first, and only then
-- ends the goroutine of `netInit`; the package ini is shut down later still.
use srv_app.Base.{
  ℤ, Bool, true, false, ◌&&◌, ◌||◌, not, List, [], ◌∷◌, Option, none, some, Text, ok, ◌≡◌, refl,
  arith, sym, ◌∙◌, ◌⊎◌, inl, inr, Option-cases, Memᴰ, ◌≢◌,
}
use srv_app.Dict.{lookup, member, IsMap}
use srv_app.HttpSrv.Accept.{Listener, TlsConfig, close}
use srv_app.HttpSrv.{HttpSrv, Side, is_private_network, in_nets}
use srv_app.HttpSrv.Info.{shutdown, close_listeners}
use srv_app.HttpSrv.Info.Laws.{is_all_closing}
use srv_app.HttpSrv.Restart.{Wanted, Sockets, want, rebind, restart_side, restart_private_http}
use srv_app.HttpSrv.Restart.{restart_public_http}
use srv_app.HttpSrv.Configure.{
  Settings, SideSettings, Host, is_changed, set_side, configure, configure_tls, set_honor,
  restart_changed,
}
use srv_app.HttpSrv.Configure.Laws.{IsSetTo}
use srv_app.HttpSrv.Configure.Effect.{configure_steps}
use srv_app.HttpSrv.Configure.Listeners.{before}
use srv_app.HttpSrv.Restart.Laws.{BothSelf, lookup-rebind}
use srv_app.HttpSrv.Restart.Addresses.{IsAddrOf, want-BothSelf, want_sound}

closing_of_lookup :
    (l : List (Text × Listener)) (k : Text) (ln : Listener)
    → is_all_closing l ≡ true
    → lookup k l ≡ some ln
    → ln.closing ≡ true
unfolding lookup
closing_of_lookup [] k ln h e = ground arith
closing_of_lookup ((j, ln') ∷ l) k ln h e = ground (arith, closing_of_lookup l k ln)

lookup-close_listeners :
    (closes : Text → Bool) (l : List (Text × Listener)) (k : Text)
    → member k (close_listeners closes l).0 ≡ member k l
unfolding lookup close_listeners
lookup-close_listeners closes [] k = refl
lookup-close_listeners closes ((j, ln) ∷ l) k = ground (arith, lookup-close_listeners closes l k)

closing-rebind :
    (sys : Sockets) (cfg : Option TlsConfig) (w : Wanted) (l : List (Text × Listener)) (k : Text)
    (ln : Listener)
    → IsMap l
    → BothSelf w
    → member k w.http && member k w.tls ≡ false
    → is_all_closing l ≡ true
    → lookup k (rebind sys cfg w l) ≡ some ln
    → ln.closing ≡ member k l
closing-rebind sys cfg w l k ln h self disjoint closing e =
    ground (arith, lookup-rebind sys cfg w l k h self disjoint, closing_of_lookup l k ln closing)

-- No address of the list is the same with the two ports.
abbrev pub ArePortsApart : (Text → ℤ → Text) → List Text → ℤ → ℤ → Type 0
ArePortsApart join addrs port tls_port =
    (x y : Text) → Memᴰ x addrs → Memᴰ y addrs → join x port ≢ join y tls_port

abbrev OnlyOldClosing : List (Text × Listener) → List (Text × Listener) → Text → Type 0
OnlyOldClosing old after k = (ln : Listener) → lookup k after ≡ some ln → ln.closing ≡ member k old

abbrev pub closing_of : Option Listener → Bool
closing_of none = false
closing_of (some ln) = ln.closing

-- Whether the address has a listener that is closing.
abbrev pub closing_at : Text → List (Text × Listener) → Bool
closing_at k l = closing_of (lookup k l)

OnlyOldClosing-closing_at :
    (old after : List (Text × Listener)) (k : Text)
    → OnlyOldClosing old after k
    → closing_at k after ≡ (member k after && member k old)
OnlyOldClosing-closing_at old after k h = elim (Option-cases (lookup k after)) [
  | inl e ↦ rw e refl
  | inr (ln, e) ↦ rw e (h ln e)
]

module _ (join : Text → ℤ → Text) (sys : Sockets) (cfg : Option TlsConfig) (on_side : Text → Bool)
    (addrs : List Text) (side : Side)
    (apart : ArePortsApart join addrs side.port side.tls_port) where
  not_both :
      (k : Text)
      → (member {V = Text} k [] ≡ true) ⊎ IsAddrOf join on_side side.port addrs k
      → (member {V = Text} k [] ≡ true) ⊎ IsAddrOf join on_side side.tls_port addrs k
      → ⊥
  unfolding lookup
  not_both k (inl h) b = ground arith
  not_both k (inr a) (inl h) = ground arith
  not_both k (inr (x, m, _, _, e)) (inr (y, m', _, _, e')) = apart x y m m' (e ∙ sym e')

  want_apart :
      (k : Text)
      → let w = want join on_side side.port side.tls_port addrs (record { http = []; tls = [] }) in
        member k w.http && member k w.tls ≡ false
  want_apart k =
      let empty : Wanted = record { http = []; tls = [] } in
      let w = want join on_side side.port side.tls_port addrs empty in
      let (plain, tls) = want_sound join on_side side.port side.tls_port k addrs empty in
      let not_both_in : member k w.http ≡ true → member k w.tls ≡ true → ⊥ =
        λ a b. not_both k (plain a) (tls b) in
      ground arith

  restart_side-closing :
      (k : Text)
      → IsMap side.listeners
      → is_all_closing side.listeners ≡ true
      → OnlyOldClosing side.listeners (restart_side join sys cfg on_side addrs side).listeners k
  unfolding restart_side
  restart_side-closing k distinct closing ln =
      let empty : Wanted = record { http = []; tls = [] } in
      let w = want join on_side side.port side.tls_port addrs empty in
      closing-rebind sys cfg w side.listeners k ln distinct
        (want-BothSelf join on_side side.port side.tls_port addrs empty (tt, tt)) (want_apart k)
        closing

is_all_closing-close_listeners :
    (closes : Text → Bool) (l : List (Text × Listener))
    → is_all_closing (close_listeners closes l).0 ≡ true
unfolding close_listeners close
is_all_closing-close_listeners closes [] = refl
is_all_closing-close_listeners closes ((k, ln) ∷ l) =
    ground (arith, is_all_closing-close_listeners closes l)

close_listeners-IsMap :
    (closes : Text → Bool) (l : List (Text × Listener))
    → IsMap l
    → IsMap (close_listeners closes l).0
unfolding close_listeners
close_listeners-IsMap closes [] h = tt
close_listeners-IsMap closes ((k, ln) ∷ l) (fresh, h) =
    (ground (arith, lookup-close_listeners closes l k), close_listeners-IsMap closes l h)

-- A restart of listeners that were closed.
closed-restart_side :
    (closes : Text → Bool) (join : Text → ℤ → Text) (sys : Sockets) (cfg : Option TlsConfig)
    (on_side : Text → Bool) (addrs : List Text) (old : List (Text × Listener)) (side : Side)
    (k : Text)
    → IsMap old
    → side.listeners ≡ (close_listeners closes old).0
    → ArePortsApart join addrs side.port side.tls_port
    → OnlyOldClosing old (restart_side join sys cfg on_side addrs side).listeners k
closed-restart_side closes join sys cfg on_side addrs old side k distinct same apart ln found =
    restart_side-closing join sys cfg on_side addrs side apart k
      (rw same (close_listeners-IsMap closes old distinct))
      (rw same (is_all_closing-close_listeners closes old)) ln found
    ∙ rw same (lookup-close_listeners closes old k)

module _ {Ip Subnet : Type 0} (host : Host Ip Subnet) where
  abbrev AreSideApart : SideSettings → Type 0
  AreSideApart s = ArePortsApart host.join host.local_addrs s.port s.tls_port

  restarted_sides :
      (srv : HttpSrv)
      → let r = restart_changed host true true srv in
        (r.private_side.listeners
          ≡ (restart_side host.join host.private_sockets srv.tls_cfg
              (is_private_network host.contains host.parse_ip host.private_nets srv)
              host.local_addrs
              srv.private_side).listeners)
        × (r.public_side.listeners
            ≡ (restart_side host.join host.public_sockets srv.tls_cfg
                (λ ip. not (in_nets host.contains host.parse_ip host.private_nets ip))
                host.local_addrs
                srv.public_side).listeners)
  unfolding restart_changed restart_private_http restart_public_http
  restarted_sides srv = (refl, refl)

  before_sides :
      (private public : Side) (srv : HttpSrv) (s : Settings)
      → IsSetTo srv.private_side s.private_settings private
      → IsSetTo srv.public_side s.public_settings public
      → let t = before host private public srv s in
        ((t.private_side.listeners ≡ srv.private_side.listeners)
          × (t.private_side.port ≡ s.private_settings.port)
          × (t.private_side.tls_port ≡ s.private_settings.tls_port))
        × ((t.public_side.listeners ≡ srv.public_side.listeners)
            × (t.public_side.port ≡ s.public_settings.port)
            × (t.public_side.tls_port ≡ s.public_settings.tls_port))
  unfolding set_honor configure_tls set_side
  before_sides private public srv s (reg, _, _) (reg', _, _) = ground (arith, reg, reg')

  -- A configuration that returns and forces a restart, after the shutdown of the server, brings no
  -- listener back: on both sides, a listener that it leaves is closing if its address had one before, and
  -- open if it had none. The two ports of a side must give no address in common.
  pub configure-shutdown :
      (closes : Text → Bool) (srv srv' : HttpSrv) (s : Settings) (k : Text)
      → IsMap srv.private_side.listeners
      → IsMap srv.public_side.listeners
      → AreSideApart s.private_settings
      → AreSideApart s.public_settings
      → s.force_restart ≡ true
      → configure host (shutdown closes srv).0 s ≡ ok srv'
      → let old = srv.private_side.listeners in
        let after = srv'.private_side.listeners in
        let old' = srv.public_side.listeners in
        let after' = srv'.public_side.listeners in
        (closing_at k after ≡ (member k after && member k old))
        × (closing_at k after' ≡ (member k after' && member k old'))
  unfolding shutdown
  configure-shutdown closes srv srv' s k distinct distinct' apart apart' force e =
      let down = (shutdown closes srv).0 in
      let (private, public, set_private, set_public, same) = configure_steps host down srv' s e in
      let t = before host private public down s in
      let ((listeners, port, tls_port), (listeners', port', tls_port')) =
        before_sides private public down s set_private set_public in
      let (on_private, on_public) = restarted_sides t in
      let p : (is_changed down.private_side s.private_settings || s.force_restart) ≡ true =
        ground arith in
      let q : (is_changed down.public_side s.public_settings || s.force_restart) ≡ true =
        ground arith in
      let made : srv' ≡ restart_changed host true true t = rw (p, q) at same in
      (
        OnlyOldClosing-closing_at _ _ k (λ ln found.
            closed-restart_side closes host.join host.private_sockets t.tls_cfg
              (is_private_network host.contains host.parse_ip host.private_nets t) host.local_addrs
              srv.private_side.listeners t.private_side k distinct listeners
              (rw (port, tls_port) apart) ln (rw on_private at (rw made at found))),
        OnlyOldClosing-closing_at _ _ k (λ ln found.
            closed-restart_side closes host.join host.public_sockets t.tls_cfg
              (λ ip. not (in_nets host.contains host.parse_ip host.private_nets ip))
              host.local_addrs srv.public_side.listeners t.public_side k distinct' listeners'
              (rw (port', tls_port') apart') ln (rw on_public at (rw made at found))),
      )
