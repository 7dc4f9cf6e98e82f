-- ===== src/HttpSrv.antt =====
-- net.go: the http server. Its fields come twice, for the private and the public side; a side is a
-- record of its own here. `configLock` is held by every operation for its whole duration, so an
-- operation is one step of the state `HttpSrv`.
pub mod Accept
pub mod Restart
pub mod Configure
pub mod Register
pub mod Builtin
pub mod Body
pub mod Info
pub mod Stop
mod Tests
use srv_app.Base.{
  ℕ, ℤ, pos, Bool, true, false, ◌&&◌, ◌||◌, not, List, [], ◌∷◌, Option, none, some, Text, text_eq,
  length, ◌==◌, if◌then◌else◌, Result, ok, panic, Panic, ◌>>=◌,
}
use srv_app.Dict.{lookup, insert, delete}
use srv_app.Mux.{
  XMux, UriHandler, func, make_key, handle, remove_handle_func, new_xmux, starts_slash, check,
}
use Accept.{Listener, TlsConfig}

pub record Side : Type 0 where
  pub port : ℤ
  pub tls_port : ℤ
  pub handlers : List (Text × UriHandler)
  pub listeners : List (Text × Listener)
  pub mux : XMux
  pub static_dir : Text

pub record HttpSrv : Type 0 where
  pub private_side : Side
  pub public_side : Side
  pub ignore_addrs : List Text
  pub tls_cfg : Option TlsConfig

-- `DefaultPrivateHttpPort` and `DefaultPublicHttpPort`
abbrev pub default_http_port : ℤ
default_http_port = pos 0

unfoldable pub new_side : Side
unfolding new_xmux
new_side = record {
  port = default_http_port;
  tls_port = pos 0;
  handlers = [];
  listeners = [];
  mux = new_xmux;
  static_dir = [];
}

unfoldable pub new_http_srv : HttpSrv
unfolding new_side
new_http_srv = record {
  private_side = new_side;
  public_side = new_side;
  ignore_addrs = [];
  tls_cfg = none;
}

-- The values of `HandlerType`; any other byte is unknown.
pub data HandlerType : Type 0 where
  private_handler public_handler all_handler unknown_handler : HandlerType

module _ (path_string : Text → Text) where
  -- What a case of the switch does to one side: the map of handlers, then the multiplexer.
  unfoldable pub register_side : Side → UriHandler → Result Side
  register_side side u = do
    mux ← handle path_string side.mux u
    ok (record side { handlers = insert (make_key u.method u.pattern) u side.handlers; mux = mux })

  unfoldable pub register_on : HttpSrv → HandlerType → UriHandler → Result HttpSrv
  unfolding register_side
  register_on srv private_handler u = do
    side ← register_side srv.private_side u
    ok (record srv { private_side = side })
  register_on srv public_handler u = do
    side ← register_side srv.public_side u
    ok (record srv { public_side = side })
  register_on srv all_handler u = do
    private_side ← register_side srv.private_side u
    public_side ← register_side srv.public_side u
    ok (record srv { private_side = private_side; public_side = public_side })
  register_on srv unknown_handler u = ok srv

  -- `f` is the number of the handler function.
  unfoldable pub register_handler : HttpSrv → Text → Text → ℕ → HandlerType → ℕ → Result HttpSrv
  unfolding register_on
  register_handler srv method path f handler_type access_level = do
    _ ← check (length path == 0 || not (starts_slash path)) Panic.bad_route_path
    register_on srv handler_type (record {
      method = method;
      handler = func f;
      pattern = path;
      required_access = access_level;
    })

unfoldable pub remove_side : Side → Text → Text → Side
remove_side side method path = record side {
  handlers = delete (make_key method path) side.handlers;
  mux = remove_handle_func side.mux method path;
}

unfoldable pub remove_handler : HttpSrv → Text → Text → HttpSrv
unfolding remove_side
remove_handler srv method path = record srv {
  private_side = remove_side srv.private_side method path;
  public_side = remove_side srv.public_side method path;
}

-- The loop of `isIgnoreAddr`.
unfoldable pub is_ignore_addr : List Text → Text → Bool
is_ignore_addr [] ip = false
is_ignore_addr (a ∷ addrs) ip = text_eq a ip || is_ignore_addr addrs ip

-- Package net, as in `Access`, and the list `privateNets`.
module _ {Ip Subnet : Type 0} (contains : Subnet → Ip → Bool) (parse_ip : Text → Ip) where
  unfoldable pub in_nets : List Subnet → Text → Bool
  in_nets [] ip = false
  in_nets (n ∷ nets) ip = contains n (parse_ip ip) || in_nets nets ip

  unfoldable pub is_private_network : List Subnet → HttpSrv → Text → Bool
  unfolding is_ignore_addr in_nets
  is_private_network nets srv ip =
      if is_ignore_addr srv.ignore_addrs ip then false else in_nets nets ip
