-- ===== src/HttpSrv/Builtin/Handlers/Tests.antt =====
-- Requests to the built-in handlers of a new server.
use srv_app.Base.{
  value_or, is_ok, ok-value_or, ◌≡◌, refl, true, [], ◌∷◌, none, some, Text, codes, ok, text_eq,
}
use srv_app.Dict.{insert, lookup}
use srv_app.Mux.{
  handle, add_entries, drop_last, is_explicit, helper, new_xmux, ends_slash, starts_slash,
  from_slash, find, match, match_from, match_step, path_match, clean_path,
}
use srv_app.Mux.Serve.{HttpLib, Guard, Request, serve_http, client_host, route, dispatch, admit}
use srv_app.Mux.Serve.Safety.{runs}
use srv_app.Paths.{clean}
use srv_app.HttpSrv.{HttpSrv, new_http_srv, new_side, register_handler, register_on, register_side}
use srv_app.HttpSrv.Builtin.{net_init, register_all, post, on_logs_uri, pprof_trace}
use srv_app.HttpSrv.Builtin.Handlers.{
  Pages, shutdown_later, internal_error, foreign, call, on_crash, on_shutdown, on_update_config,
  on_rotate_logs, on_config, on_ping, write_json,
}
use srv_app.HttpSrv.Builtin.Handlers.Commands.{requested}

program : Unit {0}
unfolding net_init register_all register_handler register_on register_side handle add_entries
    drop_last is_explicit helper insert lookup text_eq new_http_srv new_side new_xmux ends_slash
    starts_slash from_slash serve_http client_host route dispatch admit find match match_from
    match_step path_match clean_path clean call on_crash on_shutdown on_update_config on_rotate_logs
    on_config on_ping write_json
program = tt

abbrev pages : Pages
pages = record {
  app_info = some (codes "{}");
  counters = some (codes "[]");
  logs = none;
  ips = some (codes "[]");
  config = codes "[net]";
}

logs_fail : call pages on_logs_uri ≡ (internal_error, [])
unfolding program
logs_fail = refl

trace_foreign : call pages pprof_trace ≡ (foreign, [])
unfolding program
trace_foreign = refl

abbrev as_is : Text → Text
as_is p = p

abbrev started : HttpSrv
started = value_or new_http_srv (net_init as_is new_http_srv)

returns : is_ok (net_init as_is new_http_srv) ≡ true
unfolding program
returns = refl

started_ok : net_init as_is new_http_srv ≡ ok started
started_ok = ok-value_or new_http_srv (net_init as_is new_http_srv) returns

abbrev lib : HttpLib
lib = record { path_clean = clean; url_string = λ r p. p; split_host_port = λ a. some a }

abbrev admins : Guard (Unit {0})
admins = record { access_level = λ host. 2; authorize = λ g host. (g, ([], true)) }

abbrev shut_down_now : Request
shut_down_now = record {
  method = post;
  host = codes "a.org";
  url_path = codes "/cmd/shutdown/";
  tls = true;
  request_uri = codes "/cmd/shutdown/";
  proto_at_least_1_1 = true;
  x_forwarded_for = [];
  remote_addr = codes "10.0.0.1";
}

admin_shuts_down :
    requested pages (runs (serve_http lib admins started.private_side.mux tt shut_down_now).1)
    ≡ shutdown_later ∷ []
unfolding program
admin_shuts_down = refl
