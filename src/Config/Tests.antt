-- ===== src/Config/Tests.antt =====
-- A small configuration file.
use srv_app.Base.{
  value_or, is_ok, ok-value_or, ℕ, suc, zero, ◌≡◌, ◌≢◌, ◌≤◌, refl, arith, text_eq_iff, Option, ◌<◌,
  map, Bool, true, false, List, [], ◌∷◌, some, Text, codes, text_eq, ℤ, pos, int_eq, is_positive,
  if◌then◌else◌, Memᴰ, length, Result, ok,
}
use srv_app.Dict.{lookup, insert, delete, member, IsMap}
use srv_app.Mux.{
  MuxEntry, func, handle, add_entries, drop_last, is_explicit, helper, ends_slash, starts_slash,
  from_slash, find, match, match_from, match_step, path_match, clean_path, new_xmux,
}
use srv_app.Mux.Serve.{HttpLib, Guard, Request, serve_http, client_host, route, dispatch, admit}
use srv_app.Mux.Serve.Safety.{runs}
use srv_app.Access.{cfg_access, get_access_level, parse_access_level}
use srv_app.Logs.{Notifier}
use srv_app.HttpSrv.{
  new_http_srv, new_side, register_handler, register_on, register_side, private_handler,
  is_private_network, is_ignore_addr, in_nets,
}
use srv_app.HttpSrv.Restart.{
  Sockets, restart_private_http, restart_public_http, rebind, shut_down, start,
}
use srv_app.HttpSrv.Configure.{Host, configure, get, is_changed, has_new_dir}
use srv_app.Life.{cmdline}
use srv_app.Config.{Ini, cfg_crash_reports, non_empty}
use srv_app.Life.Startup.{RunCfg}
use srv_app.Config.Net.{NetState, NetLib, key_pair, cert_map, settings_of, access_rights, cfg_net}
use srv_app.Addrs.{net_enum_addrs}
use srv_app.Addrs.Changes.{occurrences, read_ips}
use srv_app.Config.Watch.{on_minute, Watched, NetEvent, minute, ended, watch}
use srv_app.Config.Watch.Quiet.{IsQuiet, watch_quiet}
use srv_app.Config.Watch.Moves.{on_minute-private}
use srv_app.HttpSrv.Configure.Listeners.{IsPrivateAddr}
use srv_app.Config.Net.Effect.{cfg_net-serve}

program : Unit {0}
unfolding lookup insert delete text_eq int_eq is_positive new_http_srv new_side new_xmux
    register_handler register_on register_side handle add_entries drop_last is_explicit helper
    ends_slash starts_slash from_slash find match match_from match_step path_match clean_path
    serve_http client_host route dispatch admit cfg_access get_access_level parse_access_level
    is_private_network is_ignore_addr in_nets restart_private_http restart_public_http rebind
    shut_down start configure is_changed has_new_dir key_pair cert_map settings_of cfg_net
    cfg_crash_reports non_empty on_minute net_enum_addrs
program = tt

abbrev Entries : Type 0
Entries = List (Text × List Text)

abbrev first_entry : Entries → Text → List Text
first_entry [] key = []
first_entry ((k, v) ∷ sec) key = if text_eq k key then v else first_entry sec key

abbrev all_entries : Entries → Text → List (List Text)
all_entries [] key = []
all_entries ((k, v) ∷ sec) key =
    let rest = all_entries sec key in if text_eq k key then v ∷ rest else rest

abbrev text_at : List Text → ℕ → Text → Text
text_at [] i default = default
text_at (s ∷ v) zero default = s
text_at (s ∷ v) (suc i) default = text_at v i default

abbrev int_at : List Text → ℕ → ℤ → ℤ
int_at [] i default = default
int_at (s ∷ v) zero default = pos (length s)
int_at (s ∷ v) (suc i) default = int_at v i default

abbrev bool_at : List Text → ℕ → Bool → Bool
bool_at [] i default = default
bool_at (s ∷ v) zero default = text_eq s (codes "true")
bool_at (s ∷ v) (suc i) default = bool_at v i default

-- A number is written by as many letters.
abbrev entries : Entries
entries =
    (codes "PrivateHttpPort", codes "xx" ∷ [])
    ∷ (codes "AccessRights", codes "10" ∷ codes "user" ∷ [])
    ∷ (codes "CertMap", codes "a.org" ∷ codes "c" ∷ codes "k" ∷ [])
    ∷ (codes "BindIgnore", codes "9" ∷ [])
    ∷ (codes "SmtpToAddr", [] ∷ [])
    ∷ (codes "SmtpToAddr", codes "ops" ∷ [])
    ∷ (codes "InfoFlushIntervalSec", codes "iii" ∷ [])
    ∷ []

abbrev ini : Ini Entries (List Text)
ini = record {
  get_section = λ name. entries;
  get_first_val = first_entry;
  get_vals = all_entries;
  get_val_str = text_at;
  get_val_int = int_at;
  get_val_bool = bool_at;
  config_ver = codes "v1";
}

abbrev same_text : Text → Text → Bool
same_text n ip = if text_eq n ip then true else false

abbrev as_is : Text → Text
as_is p = p

abbrev lib : NetLib Text Text
lib = record {
  to_lower = as_is;
  parse_cidr = λ t. some (t, t);
  load_key_pair = λ c k. some 4;
  config_dir = codes "/config";
}

abbrev all_bound : Sockets
all_bound = record { closes = λ k. true; binds_http = λ k. true; binds_tls = λ k. true }

abbrev host : Host Text Text
host = record {
  path_string = as_is;
  join = λ x p. x;
  private_sockets = all_bound;
  public_sockets = all_bound;
  local_addrs = codes "7" ∷ codes "9" ∷ [];
  contains = same_text;
  parse_ip = as_is;
  private_nets = codes "7" ∷ codes "9" ∷ [];
}

abbrev net : NetState Text
net = record {
  http_srv =
      value_or new_http_srv
        (register_handler as_is new_http_srv get (codes "/p") 5 private_handler 1);
  access_list = [];
  net_id = [];
}

abbrev run_cfg : RunCfg
run_cfg = record { init_srv_cmd = true; init_srv_svc = false }

abbrev after : NetState Text
after = value_or net (cfg_net ini lib host run_cfg cmdline 0 net)

returns : is_ok (cfg_net ini lib host run_cfg cmdline 0 net) ≡ true
unfolding program
returns = refl

cfg_net_test : cfg_net ini lib host run_cfg cmdline 0 net ≡ ok after
cfg_net_test = ok-value_or net (cfg_net ini lib host run_cfg cmdline 0 net) returns

listener_test : member (codes "7") after.http_srv.private_side.listeners ≡ true
unfolding program
listener_test = refl

to_addrs_test : (cfg_crash_reports ini).1.to_addrs ≡ codes "ops" ∷ []
unfolding program
to_addrs_test = refl

abbrev http_lib : HttpLib
http_lib = record { path_clean = as_is; url_string = λ r p. p; split_host_port = λ a. some a }

abbrev no_geo : Unit {0} → Text → Unit {0} × (Text × Bool)
no_geo g h = (g, ([], true))

abbrev request : Request
request = record {
  method = get;
  host = codes "a.org";
  url_path = codes "/p";
  tls = true;
  request_uri = codes "/p";
  proto_at_least_1_1 = true;
  x_forwarded_for = [];
  remote_addr = codes "10";
}

abbrev guard : Guard (Unit {0})
guard = record {
  access_level = get_access_level same_text as_is after.access_list;
  authorize = no_geo;
}

known : client_host http_lib after.http_srv.private_side.mux request ≡ some (codes "10")
unfolding program
known = refl

ran : runs (serve_http http_lib guard after.http_srv.private_side.mux tt request).1 ≡ func 5 ∷ []
unfolding program
ran = refl

line : Memᴰ (codes "10", codes "user") (access_rights ini lib)
unfolding program
line = Memᴰ.head refl

holds : same_text (codes "10") (codes "10") ≡ true
unfolding program
holds = refl

cfg_net-serve_example :
    (e : Text × MuxEntry) × Memᴰ e after.http_srv.private_side.mux.m
    × (e.1.h.handler ≡ func 5)
    × (e.1.h.required_access ≤ parse_access_level as_is (codes "user"))
cfg_net-serve_example =
    cfg_net-serve ini lib host http_lib no_geo run_cfg cmdline 0 net after
      after.http_srv.private_side.mux tt request 5 (codes "10") (codes "user") (codes "10")
      (codes "10") refl cfg_net_test line refl holds known ran

abbrev file : Notifier
file = record { address = 2; is_buffered = true; is_log_closer = true }

abbrev low : Text
low = codes "7"

abbrev high : Text
high = codes "9"

abbrev local : List Text
local = low ∷ high ∷ []

abbrev read_any : Text → Option Text
read_any t = some t

abbrev watched : Watched Text Text
watched = record {
  reports = cfg_crash_reports ini;
  store = [];
  intervals = [];
  net = after;
  local_addrs = local;
}

abbrev two_minutes : List NetEvent
two_minutes = minute local ∷ minute local ∷ ended ∷ []

low_not_high : low ≢ high
low_not_high = ground arith

local_once : (k : Text) → occurrences k local ≤ 1
local_once k = ground (arith, text_eq_iff low k, text_eq_iff high k, low_not_high)

quiet : IsQuiet ini lib host as_is read_any run_cfg cmdline local two_minutes
quiet = ((refl, local_once), ((refl, local_once), tt))

watch_quiet_example :
    watch ini lib host as_is read_any run_cfg cmdline two_minutes watched ≡ ok watched
watch_quiet_example =
    watch_quiet ini lib host as_is read_any run_cfg cmdline two_minutes watched quiet

-- The address 7 comes.
abbrev one_minute : Watched Text Text → Result (Watched Text Text)
one_minute = on_minute ini lib host as_is read_any run_cfg cmdline local

abbrev only_high : Watched Text Text
only_high = record watched { local_addrs = high ∷ [] }

abbrev moved : Watched Text Text
moved = value_or only_high (one_minute only_high)

minute_returns : is_ok (one_minute only_high) ≡ true
unfolding program
minute_returns = refl

minute_test : one_minute only_high ≡ ok moved
minute_test = ok-value_or only_high (one_minute only_high) minute_returns

listeners-IsMap : IsMap only_high.net.http_srv.private_side.listeners
unfolding program
listeners-IsMap = (refl, tt)

address_came : 0 < (net_enum_addrs as_is read_any local only_high.local_addrs).1
unfolding program
address_came = ground arith

moved_listener : member low moved.net.http_srv.private_side.listeners ≡ true
unfolding program
moved_listener = refl

on_minute-private_example :
    IsPrivateAddr
      (record host { local_addrs = map as_is (read_ips as_is read_any local) })
      (settings_of ini lib 0)
      low
on_minute-private_example =
    on_minute-private ini lib host as_is read_any run_cfg cmdline local only_high moved low refl
      listeners-IsMap address_came minute_test moved_listener
