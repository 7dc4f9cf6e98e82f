-- ===== src/HttpSrv/Restart.antt =====
-- net.go: `restartPrivateHttp` and `restartPublicHttp`, which differ in the test for an address and
-- in the side that they work on. `listeners` is the map of the side.
pub mod Laws
pub mod Distinct
pub mod Addresses
pub mod Sides
use srv_app.Base.{
  ℕ, ℤ, is_positive, Bool, true, false, ◌&&◌, ◌||◌, not, List, [], ◌∷◌, ◌++◌, Option, none, some,
  Text, if◌then◌else◌,
}
use srv_app.Dict.{lookup, insert, delete, member}
use srv_app.HttpSrv.Accept.{Listener, TlsConfig, listen, close}
use srv_app.HttpSrv.{HttpSrv, Side, is_private_network, in_nets}

-- `httpList` and `TLSList`.
pub record Wanted : Type 0 where
  pub http : List (Text × Text)
  pub tls : List (Text × Text)

-- `join` is `net.JoinHostPort` on the address and the decimal digits of the port.
module _ (join : Text → ℤ → Text) where
  abbrev add_addr : Text → ℤ → List (Text × Text) → List (Text × Text)
  add_addr x port l = if is_positive port then insert (join x port) (join x port) l else l

  -- One round of the first loop.
  unfoldable pub want_one : (Text → Bool) → ℤ → ℤ → Text → Wanted → Wanted
  want_one on_side port tls_port x w =
      if on_side x
      then record { http = add_addr x port w.http; tls = add_addr x tls_port w.tls }
      else w

  -- The first loop, over the local addresses.
  unfoldable pub want : (Text → Bool) → ℤ → ℤ → List Text → Wanted → Wanted
  unfolding want_one
  want on_side port tls_port [] w = w
  want on_side port tls_port (x ∷ addrs) w =
      want on_side port tls_port addrs (want_one on_side port tls_port x w)

-- What the second loop leaves: the addresses that are still to be bound, the listeners that stay,
-- and the listeners that were closed.
pub record Kept : Type 0 where
  pub wanted : Wanted
  pub listeners : List (Text × Listener)
  pub closed : List Listener

-- The second loop, over the old listeners. `closes` is what the closing of a socket answers.
unfoldable pub shut_down : (Text → Bool) → Wanted → List (Text × Listener) → Kept
unfolding close
shut_down closes w [] = record { wanted = w; listeners = []; closed = [] }
shut_down closes w ((k, ln) ∷ l) =
    let stay = λ (r : Kept). record r { listeners = (k, ln) ∷ r.listeners } in
    let plain = shut_down closes (record w { http = delete k w.http }) l in
    let tls = shut_down closes (record w { tls = delete k w.tls }) l in
    let rest = shut_down closes w l in
    if member k w.http
    then stay plain
    else if member k w.tls
    then stay tls
    else record rest { closed = (close ln (closes k)).0 ∷ rest.closed }

-- One round of the third and of the fourth loop: the address is bound, or the error is logged.
abbrev start_one : Option Listener → Text → List (Text × Listener) → List (Text × Listener)
start_one none k listeners = listeners
start_one (some ln) k listeners = insert k ln listeners

-- The third loop, with no configuration, and the fourth, with that of TLS. `bound` is what
-- `net.Listen` answers.
unfoldable pub start :
    (Text → Bool)
    → Option TlsConfig
    → List (Text × Text)
    → List (Text × Listener)
    → List (Text × Listener)
unfolding listen
start bound cfg [] listeners = listeners
start bound cfg ((i, addr) ∷ l) listeners =
    start bound cfg l (start_one (listen (bound addr) addr cfg) addr listeners)

-- What the system answers to the calls of a restart.
pub record Sockets : Type 0 where
  pub closes : Text → Bool
  pub binds_http : Text → Bool
  pub binds_tls : Text → Bool

-- The loops behind the first.
unfoldable pub rebind :
    Sockets → Option TlsConfig → Wanted → List (Text × Listener) → List (Text × Listener)
unfolding shut_down start
rebind sys cfg w listeners =
    let r = shut_down sys.closes w listeners in
    start sys.binds_tls cfg r.wanted.tls (start sys.binds_http none r.wanted.http r.listeners)

unfoldable pub restart_side :
    (Text → ℤ → Text) → Sockets → Option TlsConfig → (Text → Bool) → List Text → Side → Side
unfolding want rebind
restart_side join sys cfg on_side addrs side =
    let w = want join on_side side.port side.tls_port addrs (record { http = []; tls = [] }) in
    record side { listeners = rebind sys cfg w side.listeners }

module _ {Ip Subnet : Type 0} (contains : Subnet → Ip → Bool) (parse_ip : Text → Ip)
    (nets : List Subnet) where
  -- The private side takes the private addresses that are not to be ignored.
  unfoldable pub restart_private_http : (Text → ℤ → Text) → Sockets → List Text → HttpSrv → HttpSrv
  unfolding restart_side is_private_network
  restart_private_http join sys addrs srv = record srv {
    private_side =
        restart_side join sys srv.tls_cfg (is_private_network contains parse_ip nets srv) addrs
          srv.private_side;
  }

  -- The public side takes the addresses in no private net, and does not look at the list of
  -- addresses to ignore.
  unfoldable pub restart_public_http : (Text → ℤ → Text) → Sockets → List Text → HttpSrv → HttpSrv
  unfolding restart_side in_nets
  restart_public_http join sys addrs srv = record srv {
    public_side =
        restart_side join sys srv.tls_cfg (λ ip. not (in_nets contains parse_ip nets ip)) addrs
          srv.public_side;
  }
