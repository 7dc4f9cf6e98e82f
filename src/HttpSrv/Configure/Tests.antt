-- ===== src/HttpSrv/Configure/Tests.antt =====
-- The configuration of a small host, and the theorems at it.
use srv_app.Base.{
  ℕ, zero, suc, ℤ, pos, negsuc, int_eq, is_positive, ◌≡◌, refl, Bool, true, false, List, [], ◌∷◌,
  ◌++◌, Text, codes, text_eq, Result, ok, panic, Panic, ◌==◌, All, All-mem, text_eq_iff, ◌&&◌,
  arith, is_ok, value_or, ok-value_or,
}
use srv_app.Dict.{lookup, insert, delete, member, IsMap}
use srv_app.Mux.{starts_slash, add_entries, handle, drop_last, is_explicit, ends_slash}
use srv_app.HttpSrv.{
  HttpSrv, new_side, new_http_srv, register_handler, remove_handler, in_nets, is_ignore_addr,
  is_private_network,
}
use srv_app.HttpSrv.Info.{shutdown, close_listeners}
use srv_app.HttpSrv.Stop.Late.{ArePortsApart, closing_at, configure-shutdown}
use srv_app.HttpSrv.Restart.{
  Sockets, shut_down, rebind, restart_private_http, restart_public_http, start,
}
use srv_app.HttpSrv.Configure.{Settings, SideSettings, Host, configure, is_changed, has_new_dir}
use srv_app.HttpSrv.Configure.Effect.{configure_second_dir_panics}

program : Unit {0}
unfolding lookup insert delete text_eq int_eq is_positive new_http_srv new_side register_handler
    remove_handler restart_private_http restart_public_http rebind shut_down start configure
    has_new_dir is_changed handle add_entries drop_last is_explicit ends_slash starts_slash
    is_private_network in_nets is_ignore_addr shutdown close_listeners
program = tt

-- An address is private if it begins with `1`; a port is written as that many `:`.
abbrev contains : ℕ → Text → Bool
contains net [] = false
contains net (c ∷ s) = c == net

abbrev colons : ℕ → Text
colons zero = []
colons (suc n) = b':' ∷ colons n

abbrev join : Text → ℤ → Text
join x (pos n) = x ++ colons n
join x (negsuc n) = x

abbrev all_bound : Sockets
all_bound = record { closes = λ k. true; binds_http = λ k. true; binds_tls = λ k. true }

abbrev addrs : List Text
addrs = codes "1" ∷ codes "2" ∷ []

abbrev as_is : Text → Text
as_is p = p

abbrev host : Host Text ℕ
host = record {
  path_string = as_is;
  join = join;
  private_sockets = all_bound;
  public_sockets = all_bound;
  local_addrs = addrs;
  contains = contains;
  parse_ip = as_is;
  private_nets = b'1' ∷ [];
}

abbrev no_side : SideSettings
no_side = record { port = pos 0; tls_port = pos 0; static_dir = []; static_access_level = 2 }

abbrev defaults : Settings
defaults = record {
  private_settings = no_side;
  public_settings = no_side;
  ignore_addrs = [];
  tls_redirect = true;
  honor_x_forwarded_for = false;
  cert_map = [];
  force_restart = false;
}

abbrev dir_a : Settings
dir_a = record defaults { private_settings = record no_side { static_dir = codes "a" } }

abbrev dir_b : Settings
dir_b = record defaults { private_settings = record no_side { static_dir = codes "b" } }

-- The server after the first directory.
abbrev result_or : HttpSrv → Result HttpSrv → HttpSrv
result_or d (ok s) = s
result_or d (panic p) = d

abbrev with_a : HttpSrv
with_a = result_or new_http_srv (configure host new_http_srv dir_a)

with_a_test : configure host new_http_srv dir_a ≡ ok with_a
unfolding program
with_a_test = refl

configure_second_dir_panics_example :
    configure host with_a dir_b ≡ panic Panic.multiple_registrations
unfolding program
configure_second_dir_panics_example =
    configure_second_dir_panics host new_http_srv with_a dir_a dir_b with_a_test refl refl

-- Two ports that are on, and the server that has them.
abbrev at_port : SideSettings
at_port = record no_side { port = pos 1 }

abbrev ports : Settings
ports = record defaults {
  private_settings = at_port;
  public_settings = at_port;
  force_restart = true;
}

abbrev serving : HttpSrv
serving = value_or new_http_srv (configure host new_http_srv ports)

-- An address has come when the server is shut down and configured again.
abbrev late_addrs : List Text
late_addrs = codes "12" ∷ addrs

abbrev late_host : Host Text ℕ
late_host = record host { local_addrs = late_addrs }

abbrev late_call : Result HttpSrv
late_call = configure late_host (shutdown (λ k. true) serving).0 ports

abbrev late : HttpSrv
late = value_or new_http_srv late_call

late_returns : is_ok late_call ≡ true
unfolding program
late_returns = refl

late_ok : late_call ≡ ok late
late_ok = ok-value_or new_http_srv late_call late_returns

late_test :
    (closing_at (codes "12:") late.private_side.listeners ≡ false)
    × (member (codes "12:") late.private_side.listeners ≡ true)
    × (closing_at (codes "1:") late.private_side.listeners ≡ true)
unfolding program
late_test = (refl, refl, refl)

abbrev DoDiffer : Text → Text → Type 0
DoDiffer x y = text_eq (join x (pos 1)) (join y (pos 0)) ≡ false

all_differ : All (λ (x : Text). All (DoDiffer x) late_addrs) late_addrs
unfolding program
all_differ =
    ((refl, (refl, (refl, tt))), ((refl, (refl, (refl, tt))), ((refl, (refl, (refl, tt))), tt)))

apart : ArePortsApart join late_addrs (pos 1) (pos 0)
apart x y m m' e =
    let differ : DoDiffer x y =
      All-mem (DoDiffer x) (All-mem (λ (x : Text). All (DoDiffer x) late_addrs) all_differ m) m' in
    ground (arith, text_eq_iff (join x (pos 1)) (join y (pos 0)))

serving_maps : IsMap serving.private_side.listeners × IsMap serving.public_side.listeners
unfolding program
serving_maps = ((refl, tt), (refl, tt))

configure-shutdown_example :
    let old = serving.private_side.listeners in
    let after = late.private_side.listeners in
    let old' = serving.public_side.listeners in
    let after' = late.public_side.listeners in
    (closing_at (codes "12:") after ≡ (member (codes "12:") after && member (codes "12:") old))
    × (closing_at (codes "12:") after' ≡ (member (codes "12:") after' && member (codes "12:") old'))
configure-shutdown_example =
    configure-shutdown late_host (λ k. true) serving late ports (codes "12:") serving_maps.0
      serving_maps.1 apart apart refl late_ok
