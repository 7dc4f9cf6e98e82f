-- ===== src/HttpSrv/Builtin/Tests.antt =====
-- Requests to a new server after its start-up.
use srv_app.Base.{
  value_or, is_ok, ok-value_or, ◌≡◌, ◌≤◌, ◌≢◌, refl, true, [], ◌∷◌, some, Text, codes, ok, text_eq,
  if◌then◌else◌, ◌==◌, arith,
}
use srv_app.Dict.{insert, lookup}
use srv_app.Mux.{
  func, slash, handle, add_entries, drop_last, is_explicit, helper, new_xmux, ends_slash,
  starts_slash, from_slash, find, match, match_from, match_step, path_match, clean_path,
}
use srv_app.Mux.Serve.{HttpLib, Guard, Request, serve_http, client_host, route, dispatch, admit}
use srv_app.Mux.Serve.Safety.{runs}
use srv_app.Access.{access_level_admin}
use srv_app.HttpSrv.{HttpSrv, new_http_srv, new_side, register_handler, register_on, register_side}
use srv_app.HttpSrv.Configure.{get}
use srv_app.HttpSrv.Builtin.{
  net_init, register_all, on_ping_uri, on_config_uri, private_nets, private_cidrs, parse_nets,
}
use srv_app.HttpSrv.Builtin.Guarded.{net_init-private_admin}

program : Unit {0}
unfolding net_init register_all register_handler register_on register_side handle add_entries
    drop_last is_explicit helper insert lookup text_eq new_http_srv new_side new_xmux ends_slash
    starts_slash from_slash serve_http client_host route dispatch admit find match match_from
    match_step path_match clean_path private_nets parse_nets
program = tt

-- `path.Clean` on the paths of this file.
abbrev no_last_slash : Text → Text
no_last_slash [] = []
no_last_slash (c ∷ []) = if c == slash then [] else c ∷ []
no_last_slash (c ∷ d ∷ s) = c ∷ no_last_slash (d ∷ s)

abbrev as_is : Text → Text
as_is p = p

abbrev started : HttpSrv
started = value_or new_http_srv (net_init as_is new_http_srv)

returns : is_ok (net_init as_is new_http_srv) ≡ true
unfolding program
returns = refl

started_ok : net_init as_is new_http_srv ≡ ok started
started_ok = ok-value_or new_http_srv (net_init as_is new_http_srv) returns

abbrev lib : HttpLib
lib = record { path_clean = no_last_slash; url_string = λ r p. p; split_host_port = λ a. some a }

abbrev admins : Guard (Unit {0})
admins = record { access_level = λ host. 2; authorize = λ g host. (g, ([], true)) }

abbrev strangers : Guard (Unit {0})
strangers = record { access_level = λ host. 0; authorize = λ g host. (g, ([], true)) }

abbrev request_of : Text → Request
request_of path = record {
  method = get;
  host = codes "a.org";
  url_path = path;
  tls = true;
  request_uri = path;
  proto_at_least_1_1 = true;
  x_forwarded_for = [];
  remote_addr = codes "10.0.0.1";
}

config_not_ping : on_config_uri ≢ on_ping_uri
config_not_ping = ground arith

config_runs :
    runs (serve_http lib admins started.private_side.mux tt (request_of (codes "/debug/config/"))).1
    ≡ func on_config_uri ∷ []
unfolding program
config_runs = refl

ping_runs :
    runs (serve_http lib strangers started.public_side.mux tt (request_of (codes "/debug/ping/"))).1
    ≡ func on_ping_uri ∷ []
unfolding program
ping_runs = refl

net_init-private_admin_example :
    (host : Text) × (client_host lib started.private_side.mux (request_of (codes "/debug/config/"))
      ≡ some host)
    × (access_level_admin ≤ admins.access_level host)
net_init-private_admin_example =
    net_init-private_admin as_is lib admins started tt (request_of (codes "/debug/config/"))
      on_config_uri started_ok config_not_ping config_runs

nets_parsed : private_nets (λ t. some t) ≡ ok private_cidrs
unfolding program
nets_parsed = refl
