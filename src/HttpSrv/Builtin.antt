-- ===== src/HttpSrv/Builtin.antt =====
-- net.go: the private nets and the registrations of `netInit`. (The goroutines that it starts are not
-- part of this file.)
pub mod Guarded
pub mod Handlers
pub mod Reports
mod Tests
use srv_app.Base.{
  ℕ, List, [], ◌∷◌, Option, none, some, Text, codes, Result, ok, panic, Panic, ◌>>=◌,
}
use srv_app.Access.{access_level_none, access_level_admin}
use srv_app.HttpSrv.{HttpSrv, HandlerType, private_handler, all_handler, register_handler}
use srv_app.HttpSrv.Configure.{get}

abbrev pub post : Text
post = codes "POST"

-- The handler functions; 1 and 2 are those of the static directories.
abbrev pub on_crash_uri : ℕ
on_crash_uri = 3

abbrev pub on_shutdown_uri : ℕ
on_shutdown_uri = 4

abbrev pub on_update_config_uri : ℕ
on_update_config_uri = 5

abbrev pub on_rotate_logs_uri : ℕ
on_rotate_logs_uri = 6

abbrev pub on_app_info_uri : ℕ
on_app_info_uri = 7

abbrev pub on_config_uri : ℕ
on_config_uri = 8

abbrev pub on_counters_uri : ℕ
on_counters_uri = 9

abbrev pub on_logs_uri : ℕ
on_logs_uri = 10

abbrev pub on_ping_uri : ℕ
on_ping_uri = 11

abbrev pub pprof_index : ℕ
pprof_index = 12

abbrev pub pprof_cmdline : ℕ
pprof_cmdline = 13

abbrev pub pprof_profile : ℕ
pprof_profile = 14

abbrev pub pprof_symbol : ℕ
pprof_symbol = 15

abbrev pub pprof_trace : ℕ
pprof_trace = 16

abbrev pub ips_on_uri : ℕ
ips_on_uri = 17

-- The arguments of a call of `RegisterHandler`.
pub record Registration : Type 0 where
  pub method : Text
  pub path : Text
  pub function : ℕ
  pub handler_type : HandlerType
  pub access_level : ℕ

abbrev pub admin_only : Text → Text → ℕ → Registration
admin_only m p f = record {
  method = m;
  path = p;
  function = f;
  handler_type = private_handler;
  access_level = access_level_admin;
}

-- The call of `ipsInit`.
abbrev pub ips_registration : Registration
ips_registration = admin_only get (codes "/debug/ipstats/") ips_on_uri

-- In the order of the calls.
abbrev pub registrations : List Registration
registrations =
    ips_registration
    ∷ admin_only post (codes "/cmd/crash/") on_crash_uri
    ∷ admin_only post (codes "/cmd/shutdown/") on_shutdown_uri
    ∷ admin_only post (codes "/cmd/update_config/") on_update_config_uri
    ∷ admin_only post (codes "/cmd/rotate_logs/") on_rotate_logs_uri
    ∷ admin_only get (codes "/debug/appinfo/") on_app_info_uri
    ∷ admin_only get (codes "/debug/config/") on_config_uri
    ∷ admin_only get (codes "/debug/counters/") on_counters_uri
    ∷ admin_only get (codes "/debug/logs/") on_logs_uri
    ∷ record {
      method = get;
      path = codes "/debug/ping/";
      function = on_ping_uri;
      handler_type = all_handler;
      access_level = access_level_none;
    }
    ∷ admin_only get (codes "/debug/pprof/") pprof_index
    ∷ admin_only get (codes "/debug/pprof/cmdline") pprof_cmdline
    ∷ admin_only get (codes "/debug/pprof/profile") pprof_profile
    ∷ admin_only get (codes "/debug/pprof/symbol") pprof_symbol
    ∷ admin_only get (codes "/debug/pprof/trace") pprof_trace
    ∷ []

module _ (path_string : Text → Text) where
  unfoldable pub register_all : HttpSrv → List Registration → Result HttpSrv
  register_all srv [] = ok srv
  register_all srv (c ∷ cs) = do
    srv' ← register_handler path_string srv c.method c.path c.function c.handler_type c.access_level
    register_all srv' cs

  unfoldable pub net_init : HttpSrv → Result HttpSrv
  unfolding register_all
  net_init srv = register_all srv registrations

-- The texts of the private nets.
abbrev pub private_cidrs : List Text
private_cidrs =
    codes "10.0.0.0/8" ∷ codes "172.16.0.0/16" ∷ codes "192.168.0.0/16" ∷ codes "127.0.0.0/8" ∷ []

-- `parse_net` is the net of `net.ParseCIDR`, none on its error.
module _ {Subnet : Type 0} (parse_net : Text → Option Subnet) where
  abbrev pub or_panic : Option Subnet → Result Subnet
  or_panic none = panic Panic.parse_failed
  or_panic (some n) = ok n

  unfoldable pub parse_nets : List Text → Result (List Subnet)
  parse_nets [] = ok []
  parse_nets (t ∷ ts) = do n ← or_panic (parse_net t); nets ← parse_nets ts; ok (n ∷ nets)

  unfoldable pub private_nets : Result (List Subnet)
  unfolding parse_nets
  private_nets = parse_nets private_cidrs
