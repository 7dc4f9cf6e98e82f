-- ===== src/HttpSrv/Configure.antt =====
-- net.go: `HttpSrv.Configure`, which puts a configuration into effect.
pub mod Laws
pub mod Effect
pub mod Listeners
pub mod Entries
mod Tests
use srv_app.Base.{
  ℕ, ℤ, int_eq, is_positive, Bool, true, false, ◌&&◌, ◌||◌, not, List, [], ◌∷◌, Option, none, some,
  Text, codes, text_eq, length, ◌==◌, if◌then◌else◌, Result, ok, panic, ◌>>=◌,
}
use srv_app.Mux.{XMux}
use srv_app.HttpSrv.Accept.{TlsConfig}
use srv_app.HttpSrv.{HttpSrv, Side, HandlerType, private_handler, public_handler, register_handler}
use srv_app.HttpSrv.Restart.{Sockets, restart_private_http, restart_public_http}

-- The arguments of `Configure` that come for each side.
pub record SideSettings : Type 0 where
  pub port : ℤ
  pub tls_port : ℤ
  pub static_dir : Text
  pub static_access_level : ℕ

pub record Settings : Type 0 where
  pub private_settings : SideSettings
  pub public_settings : SideSettings
  pub ignore_addrs : List Text
  pub tls_redirect : Bool
  pub honor_x_forwarded_for : Bool
  pub cert_map : TlsConfig
  pub force_restart : Bool

abbrev pub get : Text
get = codes "GET"

abbrev pub root : Text
root = codes "/"

-- The numbers of `OnPrivStaticSrvUri` and `OnPubStaticSrvUri`.
abbrev pub on_priv_static_srv_uri : ℕ
on_priv_static_srv_uri = 1

abbrev pub on_pub_static_srv_uri : ℕ
on_pub_static_srv_uri = 2

-- The three settings of a side differ from what it has.
unfoldable pub is_changed : Side → SideSettings → Bool
is_changed side s =
    not (int_eq side.port s.port)
    || (not (int_eq side.tls_port s.tls_port) || not (text_eq side.static_dir s.static_dir))

unfoldable pub set_side : Side → SideSettings → Side
set_side side s = record side { port = s.port; tls_port = s.tls_port; static_dir = s.static_dir }

-- The static directory differs from the old one and is not empty: its handler is registered.
unfoldable pub has_new_dir : Side → SideSettings → Bool
has_new_dir side s = not (text_eq side.static_dir s.static_dir) && not (length s.static_dir == 0)

module _ (path_string : Text → Text) where
  unfoldable pub configure_private : HttpSrv → SideSettings → Result HttpSrv
  unfolding set_side has_new_dir
  configure_private srv s =
      let srv' = record srv { private_side = set_side srv.private_side s } in
      if has_new_dir srv.private_side s
      then register_handler path_string srv' get root on_priv_static_srv_uri private_handler
          s.static_access_level
      else ok srv'

  unfoldable pub configure_public : HttpSrv → SideSettings → Result HttpSrv
  unfolding set_side has_new_dir
  configure_public srv s =
      let srv' = record srv { public_side = set_side srv.public_side s } in
      if has_new_dir srv.public_side s
      then register_handler path_string srv' get root on_pub_static_srv_uri public_handler
          s.static_access_level
      else ok srv'

abbrev redirect_side : Bool → Side → Side
redirect_side b side = let mux = side.mux in record side { mux = record mux { tls_redirect = b } }

abbrev honor_side : Bool → Side → Side
honor_side b side =
    let mux = side.mux in record side { mux = record mux { honor_x_forwarded_for = b } }

unfoldable pub configure_tls : HttpSrv → TlsConfig → Bool → HttpSrv
configure_tls srv cert_map tls_redirect =
    let on = not (length cert_map == 0) in
    record srv {
      tls_cfg = if on then some cert_map else none;
      private_side =
          redirect_side (on && (is_positive srv.private_side.tls_port && tls_redirect))
            srv.private_side;
      public_side =
          redirect_side (on && (is_positive srv.public_side.tls_port && tls_redirect))
            srv.public_side;
    }

unfoldable pub set_honor : HttpSrv → Bool → HttpSrv
set_honor srv b = record srv {
  private_side = honor_side b srv.private_side;
  public_side = honor_side b srv.public_side;
}

-- The environment of a configuration: the URL of a path, the joining of host and port, the answers
-- of the system to the two restarts, the local addresses, and the private nets.
pub record Host (Ip Subnet : Type 0) : Type 0 where
  pub path_string : Text → Text
  pub join : Text → ℤ → Text
  pub private_sockets : Sockets
  pub public_sockets : Sockets
  pub local_addrs : List Text
  pub contains : Subnet → Ip → Bool
  pub parse_ip : Text → Ip
  pub private_nets : List Subnet

module _ {Ip Subnet : Type 0} (host : Host Ip Subnet) where
  unfoldable pub restart_changed : Bool → Bool → HttpSrv → HttpSrv
  restart_changed private_changed public_changed srv =
      let srv' =
        if private_changed
        then restart_private_http host.contains host.parse_ip host.private_nets host.join
            host.private_sockets host.local_addrs srv
        else srv in
      if public_changed
      then restart_public_http host.contains host.parse_ip host.private_nets host.join
          host.public_sockets host.local_addrs srv'
      else srv'

  unfoldable pub configure : HttpSrv → Settings → Result HttpSrv
  unfolding configure_private configure_public is_changed configure_tls set_honor restart_changed
  configure srv s = do
    srv₁ ←
        configure_private host.path_string (record srv { ignore_addrs = s.ignore_addrs })
          s.private_settings
    srv₂ ← configure_public host.path_string srv₁ s.public_settings
    ok (
        restart_changed (is_changed srv.private_side s.private_settings || s.force_restart)
          (is_changed srv.public_side s.public_settings || s.force_restart)
          (set_honor (configure_tls srv₂ s.cert_map s.tls_redirect) s.honor_x_forwarded_for))
