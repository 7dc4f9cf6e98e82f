-- ===== src/HttpSrv/Info.antt =====
-- net.go: what is read of a server, `GetSrvAddrs`, `getNetInfo` and the directories; and `Shutdown`.
pub mod Laws
mod Tests
use srv_app.Base.{ℕ, ◌+◌, Bool, true, false, List, [], ◌∷◌, ◌++◌, Text, length, ltb, if◌then◌else◌}
use srv_app.Dict.{keys}
use srv_app.Sorting.{sort_strings}
use srv_app.HttpSrv.{HttpSrv, Side}
use srv_app.HttpSrv.Accept.{Listener, close}

-- The loops of `GetSrvAddrs`.
unfoldable pub addrs_of : List Text → List Text
addrs_of [] = []
addrs_of (k ∷ ks) = let rest = addrs_of ks in if ltb 0 (length k) then k ∷ rest else rest

unfoldable pub get_srv_addrs : HttpSrv → List Text
unfolding addrs_of
get_srv_addrs srv =
    addrs_of (keys srv.private_side.listeners) ++ addrs_of (keys srv.public_side.listeners)

pub record SubnetInfo : Type 0 where
  pub servers : List Text
  pub handlers : List Text

pub record NetInfo : Type 0 where
  pub private_info : SubnetInfo
  pub public_info : SubnetInfo

unfoldable pub subnet_info : Side → SubnetInfo
unfolding sort_strings
subnet_info side = record {
  servers = sort_strings (keys side.listeners);
  handlers = sort_strings (keys side.handlers);
}

unfoldable pub get_net_info : HttpSrv → NetInfo
unfolding subnet_info
get_net_info srv = record {
  private_info = subnet_info srv.private_side;
  public_info = subnet_info srv.public_side;
}

unfoldable pub priv_static_dir : HttpSrv → Text
priv_static_dir srv = srv.private_side.static_dir

unfoldable pub pub_static_dir : HttpSrv → Text
pub_static_dir srv = srv.public_side.static_dir

-- `closes` says whether the listener below closes without an error, for each address.
module _ (closes : Text → Bool) where
  -- A loop of `Shutdown`: the listeners, and how often one below was closed.
  unfoldable pub close_listeners : List (Text × Listener) → List (Text × Listener) × ℕ
  unfolding close
  close_listeners [] = ([], 0)
  close_listeners ((k, ln) ∷ l) =
      let rest = close_listeners l in
      let r = close ln (closes k) in ((k, r.0) ∷ rest.0, r.1.0 + rest.1)

  unfoldable pub shutdown : HttpSrv → HttpSrv × ℕ
  unfolding close_listeners
  shutdown srv =
      let private_closed = close_listeners srv.private_side.listeners in
      let public_closed = close_listeners srv.public_side.listeners in
      (
        record srv {
          private_side = record srv.private_side { listeners = private_closed.0 };
          public_side = record srv.public_side { listeners = public_closed.0 };
        },
        private_closed.1 + public_closed.1,
      )
