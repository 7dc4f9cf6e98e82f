-- ===== src/Config/Geo/Tests.antt =====
-- A client whose country is listed.
use srv_app.Base.{ℕ, Bool, true, false, [], ◌∷◌, some, Text, codes, text_eq}
use srv_app.Dict.{lookup, insert}
use srv_app.Mux.{
  XMux, UriHandler, func, new_xmux, find, match, match_from, match_step, path_match, clean_path,
  ends_slash, starts_slash,
}
use srv_app.Mux.Serve.{HttpLib, Request, serve_http, client_host, route, dispatch, admit}
use srv_app.Geo.{
  GeoState, Outside, request, refresh, resolve_addr, authorize_host, on_config_change,
}
use srv_app.Config.{Ini}
use srv_app.Config.Geo.{geo_on_config_change}

program : Unit {0}
unfolding lookup insert text_eq new_xmux find match match_from match_step path_match clean_path
    ends_slash starts_slash serve_http client_host route dispatch admit request refresh resolve_addr
    authorize_host on_config_change geo_on_config_change
program = tt

-- Every key has the one value France, and every switch its default.
abbrev ini : Ini Text Text
ini = record {
  get_section = λ name. name;
  get_first_val = λ sec key. key;
  get_vals = λ sec key. codes "France" ∷ [];
  get_val_str = λ v i default. v;
  get_val_int = λ v i default. default;
  get_val_bool = λ v i default. default;
  config_ver = [];
}

abbrev outside : Outside
outside = record {
  http_get = λ uri. some (some uri);
  unmarshal = λ raw. some (record {
    start_ip_num = 0;
    end_ip_num = 0;
    lat = 0x42435C29;
    long = 0x40159168;
    country_code = codes "FR";
    country = codes "France";
    region = [];
    city = [];
    zip_code = [];
  });
  now = 5;
  stored_at = 5;
}

abbrev empty : GeoState
empty = record {
  sec_enabled = false;
  service_uri = [];
  data_map = [];
  country_perms = [];
  last_update = [];
}

abbrev public : Text → Bool
public host = false

abbrev every_level : Text → ℕ
every_level host = 0

abbrev as_is : Text → Text
as_is p = p

abbrev lib : HttpLib
lib = record { path_clean = as_is; url_string = λ r p. p; split_host_port = λ a. some a }

abbrev page : UriHandler
page = record { method = codes "GET"; handler = func 5; pattern = codes "/p"; required_access = 0 }

abbrev mux : XMux
mux = record new_xmux {
  m = (codes "GET:/p", record { explicit = true; h = page; pattern = codes "/p" }) ∷ [];
}

abbrev visit : Request
visit = record {
  method = codes "GET";
  host = codes "a.org";
  url_path = codes "/p";
  tls = true;
  request_uri = codes "/p";
  proto_at_least_1_1 = true;
  x_forwarded_for = [];
  remote_addr = codes "8.8.8.8";
}
