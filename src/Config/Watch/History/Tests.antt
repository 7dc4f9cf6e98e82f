-- ===== src/Config/Watch/History/Tests.antt =====
-- A configuration with an administrator and a directory, and a minute in which an address comes.
use srv_app.Base.{
  value_or, is_ok, ok-value_or, ℕ, suc, zero, ◌≡◌, ◌≢◌, refl, Bool, true, false, List, [], ◌∷◌,
  some, Text, codes, text_eq, pos, int_eq, is_positive, if◌then◌else◌, ok,
}
use srv_app.Dict.{lookup, insert, delete}
use srv_app.Mux.{
  handle, add_entries, drop_last, is_explicit, helper, ends_slash, starts_slash, from_slash, find,
  match, match_from, match_step, path_match, clean_path, new_xmux,
}
use srv_app.Mux.Serve.{HttpLib, Request, serve_http, client_host, route, dispatch, admit}
use srv_app.Mux.Serve.Safety.{runs}
use srv_app.Access.{access_level_admin, cfg_access, get_access_level, parse_access_level}
use srv_app.Addrs.{net_enum_addrs}
use srv_app.Paths.{clean}
use srv_app.HttpSrv.{
  new_http_srv, new_side, register_handler, register_on, register_side, is_private_network,
  is_ignore_addr, in_nets,
}
use srv_app.HttpSrv.Restart.{Sockets, restart_private_http, restart_public_http, rebind, shut_down}
use srv_app.HttpSrv.Configure.{configure, is_changed, has_new_dir}
use srv_app.HttpSrv.Builtin.{net_init, register_all, post}
use srv_app.HttpSrv.Builtin.Handlers.{
  Pages, shutdown_later, call, on_crash, on_shutdown, on_update_config, on_rotate_logs, on_config,
  on_ping, write_json,
}
use srv_app.HttpSrv.Builtin.Handlers.Commands.{requested}
use srv_app.Life.{cmdline}
use srv_app.Config.{Ini, cfg_crash_reports, non_empty, cfg_logs}
use srv_app.Config.Net.{key_pair, cert_map, settings_of, cfg_net}
use srv_app.Config.Watch.{Watched, on_cfg_change, on_minute}
use srv_app.Config.Watch.History.{
  Env, History, start, changed, minute, change, pass_minute, host_at, in_force,
}
use srv_app.Config.Watch.History.Commands.{IsGranted, guard_of, history_commands}

program : Unit {0}
unfolding lookup insert delete text_eq int_eq is_positive new_http_srv new_side new_xmux
    register_handler register_on register_side handle add_entries drop_last is_explicit helper
    ends_slash starts_slash from_slash find match match_from match_step path_match clean_path
    serve_http client_host route dispatch admit cfg_access get_access_level parse_access_level
    is_private_network is_ignore_addr in_nets restart_private_http restart_public_http rebind
    shut_down configure is_changed has_new_dir key_pair cert_map settings_of cfg_net
    cfg_crash_reports non_empty on_minute net_enum_addrs cfg_logs on_cfg_change net_init
    register_all call on_crash on_shutdown on_update_config on_rotate_logs on_config on_ping
    write_json clean
program = tt

abbrev text_at : List Text → ℕ → Text → Text
text_at [] i default = default
text_at (s ∷ v) zero default = s
text_at (s ∷ v) (suc i) default = text_at v i default

abbrev rights : Text
rights = codes "AccessRights"

abbrev admin : Text
admin = codes "10"

abbrev ini : Ini (Unit {0}) (List Text)
ini = record {
  get_section = λ name. tt;
  get_first_val = λ s key. if text_eq key (codes "PrivateStaticDir") then codes "www" ∷ [] else [];
  get_vals = λ s key. if text_eq key rights then (admin ∷ codes "admin" ∷ []) ∷ [] else [];
  get_val_str = text_at;
  get_val_int = λ v i default. default;
  get_val_bool = λ v i default. default;
  config_ver = codes "v1";
}

abbrev as_is : Text → Text
as_is p = p

abbrev all_bound : Sockets
all_bound = record { closes = λ k. true; binds_http = λ k. true; binds_tls = λ k. true }

abbrev env : Env Text Text
env = record {
  lib = record {
    to_lower = as_is;
    parse_cidr = λ t. some (t, t);
    load_key_pair = λ c k. some 4;
    config_dir = codes "/config";
  };
  host = record {
    path_string = as_is;
    join = λ x p. x;
    private_sockets = all_bound;
    public_sockets = all_bound;
    local_addrs = [];
    contains = λ n ip. if text_eq n ip then true else false;
    parse_ip = as_is;
    private_nets = codes "7" ∷ [];
  };
  ip_string = as_is;
  read_ip = λ t. some t;
  run_cfg = record { init_srv_cmd = true; init_srv_svc = false };
  mode = cmdline;
  default_interval = pos 5;
  srv_log = record { subs = []; fields = [] };
}

abbrev w0 : Watched Text Text
w0 = record {
  reports = cfg_crash_reports ini;
  store = [];
  intervals = [];
  net = record {
    http_srv = value_or new_http_srv (net_init as_is new_http_srv);
    access_list = [];
    net_id = [];
  };
  local_addrs = [];
}

abbrev w1 : Watched Text Text
w1 = value_or w0 (change env ini (host_at env all_bound all_bound) 0 w0)

abbrev w2 : Watched Text Text
w2 = value_or w0 (pass_minute env ini (host_at env all_bound all_bound) (codes "7" ∷ []) w1)

returns : is_ok (net_init as_is new_http_srv) ≡ true
unfolding program
returns = refl

started : net_init as_is new_http_srv ≡ ok w0.net.http_srv
started = ok-value_or new_http_srv (net_init as_is new_http_srv) returns

configured_ok : is_ok (change env ini (host_at env all_bound all_bound) 0 w0) ≡ true
unfolding program
configured_ok = refl

configured : change env ini (host_at env all_bound all_bound) 0 w0 ≡ ok w1
configured = ok-value_or w0 (change env ini (host_at env all_bound all_bound) 0 w0) configured_ok

passed_ok : is_ok (pass_minute env ini (host_at env all_bound all_bound) (codes "7" ∷ []) w1) ≡ true
unfolding program
passed_ok = refl

passed : pass_minute env ini (host_at env all_bound all_bound) (codes "7" ∷ []) w1 ≡ ok w2
passed =
    ok-value_or w0 (pass_minute env ini (host_at env all_bound all_bound) (codes "7" ∷ []) w1)
      passed_ok

abbrev both : History (Unit {0}) (List Text) env w0 w2
both =
    minute ini all_bound all_bound (codes "7" ∷ [])
      (changed ini all_bound all_bound 0 start configured) passed

abbrev http_lib : HttpLib
http_lib = record { path_clean = clean; url_string = λ r p. p; split_host_port = λ a. some a }

abbrev no_geo : Unit {0} → Text → Unit {0} × (Text × Bool)
no_geo g h = (g, ([], true))

abbrev pages : Pages
pages = record {
  app_info = some [];
  counters = some [];
  logs = some [];
  ips = some [];
  config = [];
}

abbrev shut_down_now : Request
shut_down_now = record {
  method = post;
  host = codes "a.org";
  url_path = codes "/cmd/shutdown/";
  tls = true;
  request_uri = codes "/cmd/shutdown/";
  proto_at_least_1_1 = true;
  x_forwarded_for = [];
  remote_addr = admin;
}

admin_shuts_down :
    requested pages (
      runs
        (serve_http http_lib
          (guard_of env no_geo w2)
          w2.net.http_srv.private_side.mux
          tt
          shut_down_now).1)
    ≡ shutdown_later ∷ []
unfolding program
admin_shuts_down = refl

is_some_command :
    requested pages (
      runs
        (serve_http http_lib
          (guard_of env no_geo w2)
          w2.net.http_srv.private_side.mux
          tt
          shut_down_now).1)
    ≢ []
is_some_command =
    λ (h : requested pages (
          runs
            (serve_http http_lib (guard_of env no_geo w2) w2.net.http_srv.private_side.mux tt
              shut_down_now).1)
        ≡ []).
      cc (admin_shuts_down, h)

history_commands_example :
    (host : Text) × (client_host http_lib w2.net.http_srv.private_side.mux shut_down_now
      ≡ some host)
    × ((ini' : Ini (Unit {0}) (List Text)) × (in_force env both ≡ some ini')
        × IsGranted env access_level_admin host ini')
history_commands_example =
    history_commands env as_is both http_lib no_geo pages tt shut_down_now started refl
      is_some_command
