-- ===== src/HttpSrv/Restart/Sides.antt =====
-- The addresses on which a side listens.
use srv_app.Base.{
  ℤ, is_positive, Bool, true, false, not, List, [], Option, Text, ◌≡◌, refl, arith, inl, inr, ◌⊎◌,
  Memᴰ, ◌↔◌,
}
use srv_app.Dict.{lookup, member, IsMap}
use srv_app.HttpSrv.Accept.{TlsConfig}
use srv_app.HttpSrv.{HttpSrv, Side, is_private_network, in_nets, is_ignore_addr}
use srv_app.HttpSrv.Restart.{
  Wanted, want, rebind, Sockets, restart_side, restart_private_http, restart_public_http,
}
use srv_app.HttpSrv.Restart.Laws.{BothSelf, rebind-wanted, rebind_complete}
use srv_app.HttpSrv.Restart.Addresses.{IsAddrOf, want-BothSelf, want_sound, want_complete}

abbrev nothing_wanted : Wanted
nothing_wanted = record { http = []; tls = [] }

module _ (join : Text → ℤ → Text) (sys : Sockets) (cfg : Option TlsConfig) (on_side : Text → Bool)
    (addrs : List Text) (side : Side) (k : Text) (distinct : IsMap side.listeners) where
  -- The listeners of a side after a restart are on its local addresses, at a port that is switched
  -- on; and each such address has one, if it can be bound.
  restart_side-listeners :
      (member k (restart_side join sys cfg on_side addrs side).listeners ≡ true
        → IsAddrOf join on_side side.port addrs k ⊎ IsAddrOf join on_side side.tls_port addrs k)
      × (IsAddrOf join on_side side.port addrs k ⊎ IsAddrOf join on_side side.tls_port addrs k
          → sys.binds_http k ≡ true
          → sys.binds_tls k ≡ true
          → member k (restart_side join sys cfg on_side addrs side).listeners ≡ true)
  unfolding restart_side
  restart_side-listeners = (to, from)
    where
      w : Wanted
      w = want join on_side side.port side.tls_port addrs nothing_wanted

      self : BothSelf w
      self = want-BothSelf join on_side side.port side.tls_port addrs nothing_wanted (tt, tt)

      old : (A : Type 0) → (member {V = Text} k [] ≡ true) ⊎ A → A
      old A (inl h) = absurd (unfold lookup in cc)
      old A (inr a) = a

      to :
          member k (rebind sys cfg w side.listeners) ≡ true
          → IsAddrOf join on_side side.port addrs k ⊎ IsAddrOf join on_side side.tls_port addrs k
      to found =
          let (plain, tls) =
            want_sound join on_side side.port side.tls_port k addrs nothing_wanted in
          elim (rebind-wanted sys cfg w side.listeners k distinct self found) [
            | inl h ↦ inl (old _ (plain h))
            | inr h ↦ inr (old _ (tls h))
          ]

      from :
          IsAddrOf join on_side side.port addrs k ⊎ IsAddrOf join on_side side.tls_port addrs k
          → sys.binds_http k ≡ true
          → sys.binds_tls k ≡ true
          → member k (rebind sys cfg w side.listeners) ≡ true
      from here up up_tls =
          let (plain, tls) =
            want_complete join on_side side.port side.tls_port k addrs nothing_wanted in
          let wanted : (member k w.http ≡ true) ⊎ (member k w.tls ≡ true) = elim here [
            | inl a ↦ inl (plain (inr a))
            | inr a ↦ inr (tls (inr a))
          ] in
          rebind_complete sys cfg w side.listeners k distinct self wanted up up_tls

module _ {Ip Subnet : Type 0} (contains : Subnet → Ip → Bool) (parse_ip : Text → Ip)
    (nets : List Subnet) where
  -- After a restart of the private side, each of its listeners is at a local address that lies in a
  -- private net and is not to be ignored, at one of the ports that are switched on.
  pub restart_private_http-private :
      (join : Text → ℤ → Text) (sys : Sockets) (addrs : List Text) (srv : HttpSrv) (k : Text)
      → IsMap srv.private_side.listeners
      → member k
          (restart_private_http contains parse_ip nets join sys addrs srv).private_side.listeners
        ≡ true
      → (x : Text) × (p : ℤ) × Memᴰ x addrs
        × (in_nets contains parse_ip nets x ≡ true)
        × (is_ignore_addr srv.ignore_addrs x ≡ false)
        × ((p ≡ srv.private_side.port) ⊎ (p ≡ srv.private_side.tls_port))
        × (is_positive p ≡ true)
        × (join x p ≡ k)
  unfolding restart_private_http is_private_network
  restart_private_http-private join sys addrs srv k distinct found =
      let side = srv.private_side in
      let on_side = is_private_network contains parse_ip nets srv in
      elim ((restart_side-listeners join sys srv.tls_cfg on_side addrs side k distinct).0 found) [
        | inl (x, m, on, up, key) ↦ (x, side.port, m, ground arith, ground arith, inl refl, up, key)
        | inr (x, m, on, up, key) ↦
            (x, side.tls_port, m, ground arith, ground arith, inr refl, up, key)
      ]

  -- After a restart of the public side in which an address could be bound, it has a listener exactly
  -- if it is that of a local address in no private net, at one of the ports that are switched on;
  -- also if the local address is to be ignored.
  restart_public_http-public :
      (join : Text → ℤ → Text) (sys : Sockets) (addrs : List Text) (srv : HttpSrv) (k : Text)
      → IsMap srv.public_side.listeners
      → sys.binds_http k ≡ true
      → sys.binds_tls k ≡ true
      → let on_side = λ (ip : Text). not (in_nets contains parse_ip nets ip) in
        let side = srv.public_side in
        let after = restart_public_http contains parse_ip nets join sys addrs srv in
        (member k after.public_side.listeners ≡ true)
        ↔ (IsAddrOf join on_side side.port addrs k ⊎ IsAddrOf join on_side side.tls_port addrs k)
  unfolding restart_public_http
  restart_public_http-public join sys addrs srv k distinct up up_tls =
      let (to, from) =
        restart_side-listeners join sys srv.tls_cfg (λ ip. not (in_nets contains parse_ip nets ip))
          addrs srv.public_side k distinct in
      (to, (λ here. from here up up_tls))
