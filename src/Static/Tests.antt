-- ===== src/Static/Tests.antt =====
-- The static handlers on a small disk.
use srv_app.Base.{
  value_or, ◌≡◌, ◌≢◌, refl, true, List, [], ◌∷◌, none, some, some-inj, Text, codes, text_eq, pos,
  int_eq, is_positive, if◌then◌else◌, arith,
}
use srv_app.Dict.{insert, lookup}
use srv_app.Mux.{
  func, handle, add_entries, drop_last, is_explicit, helper, ends_slash, starts_slash, from_slash,
  find, match, match_from, match_step, path_match, clean_path, new_xmux,
}
use srv_app.Mux.Serve.{
  HttpLib, Guard, Request, serve_http, client_host, route, dispatch, admit, connect,
}
use srv_app.Mux.Serve.Safety.{runs}
use srv_app.Paths.{clean, join, abs}
use srv_app.Paths.Elements.{AreNames}
use srv_app.Paths.Inside.{inside}
use srv_app.HttpSrv.{HttpSrv, new_http_srv, new_side, register_handler, register_on, register_side}
use srv_app.HttpSrv.Configure.{configure_private, on_priv_static_srv_uri, get}
use srv_app.Static.{
  Disk, regular, dir, not_exist, served, not_found, file_not_found, f_name, serve_static_file,
  on_priv_static_srv, on_pub_static_srv, no_dir,
}
use srv_app.Static.Confined.{on_priv_static_srv-inside}

program : Unit {0}
unfolding clean join abs text_eq int_eq is_positive starts_slash ends_slash insert lookup
    register_handler register_on register_side handle add_entries drop_last is_explicit helper
    from_slash new_xmux new_side new_http_srv configure_private find match match_from match_step
    path_match clean_path serve_http client_host route dispatch admit f_name serve_static_file
    on_priv_static_srv on_pub_static_srv
program = tt

abbrev page : Text
page = codes "/srv/www/a/index.html"

abbrev disk : Disk
disk = record {
  cwd = some (codes "/srv");
  stat = λ p.
      if text_eq p page then regular else if text_eq p (codes "/srv/www/a") then dir else not_exist;
  open_file = λ p. if text_eq p page then some (codes "hi") else none;
  mime_type = λ p. codes "text/html";
}

abbrev as_is : Text → Text
as_is p = p

abbrev srv : HttpSrv
srv = value_or new_http_srv (
    configure_private as_is new_http_srv (record {
      port = pos 0;
      tls_port = pos 0;
      static_dir = codes "www/";
      static_access_level = 0;
    }))

abbrev lib : HttpLib
lib = record { path_clean = clean; url_string = λ r p. p; split_host_port = λ a. some a }

abbrev strangers : Guard (Unit {0})
strangers = record { access_level = λ host. 0; authorize = λ g host. (g, ([], true)) }

abbrev request : Request
request = record {
  method = get;
  host = codes "a.org";
  url_path = codes "/a/";
  tls = true;
  request_uri = codes "/a/";
  proto_at_least_1_1 = true;
  x_forwarded_for = [];
  remote_addr = codes "10.0.0.1";
}

page_served :
    on_priv_static_srv disk srv (codes "/a/") ≡ served page (codes "text/html") (codes "hi")
unfolding program
page_served = refl

folder_not_found :
    on_priv_static_srv disk srv (codes "/a") ≡ not_found (file_not_found (codes "www/a"))
unfolding program
folder_not_found = refl

no_public_dir : on_pub_static_srv disk srv (codes "/a/") ≡ not_found no_dir
unfolding program
no_public_dir = refl

static_runs :
    runs (serve_http lib strangers srv.private_side.mux tt request).1
    ≡ func on_priv_static_srv_uri ∷ []
unfolding program
static_runs = refl

get_not_connect : request.method ≢ connect
get_not_connect = ground arith

cwd_known : (c : Text) → disk.cwd ≡ some c → c ≢ []
cwd_known c e h = cc (some-inj e)

on_priv_static_srv-inside_example :
    (base : Text) × (ws : List Text) × (abs disk.cwd (clean srv.private_side.static_dir)
      ≡ some base)
    × AreNames ws
    × (page ≡ inside base ws)
on_priv_static_srv-inside_example =
    on_priv_static_srv-inside disk cwd_known lib strangers srv tt request page (codes "text/html")
      (codes "hi") refl get_not_connect static_runs page_served
