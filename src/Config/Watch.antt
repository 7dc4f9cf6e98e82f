-- ===== src/Config/Watch.antt =====
-- config.go: `onCfgChange`; and the goroutine of `netInit` (net.go) that looks at the local
-- addresses every minute.
pub mod Quiet
pub mod Moves
pub mod History
use srv_app.Base.{
  ℕ, ◌+◌, Bool, true, false, not, List, [], ◌∷◌, ◌++◌, map, Option, none, some, Text, ℤ, ltb,
  if◌then◌else◌, Result, ok, panic, ◌>>=◌,
}
use srv_app.Addrs.{net_enum_addrs}
use srv_app.Logs.{SrvLog, Store}
use srv_app.HttpSrv.Configure.{Host}
use srv_app.Life.{RunMode}
use srv_app.Life.Startup.{RunCfg}
use srv_app.Config.{Ini, EmailHandler, cfg_crash_reports, cfg_logs}
use srv_app.Config.Net.{NetState, NetLib, cfg_net}

-- What a change of the configuration sets: the crash reports, the services of the logs, the calls of
-- `SetFlushIntervalSec` so far, and the network. `local_addrs` is set by `netEnumAddrs`.
pub record Watched (Ip Subnet : Type 0) : Type 0 where
  pub reports : Bool × EmailHandler
  pub store : Store
  pub intervals : List (ℕ × ℤ)
  pub net : NetState Subnet
  pub local_addrs : List Ip

-- What the goroutine receives: a minute has passed, and these are the addresses of the interfaces;
-- or the signal to end.
pub data NetEvent : Type 0 where
  minute : List Text → NetEvent
  ended : NetEvent

-- `ip_string` and `read_ip` are those of `net_enum_addrs`.
module _ {Section Val Ip Subnet : Type 0} (ini : Ini Section Val) (lib : NetLib Ip Subnet)
    (host : Host Ip Subnet) (ip_string : Ip → Text) (read_ip : Text → Option Ip) (run_cfg : RunCfg)
    (mode : RunMode) where
  -- The host, with the local addresses that were enumerated.
  abbrev pub host_on : List Ip → Host Ip Subnet
  host_on addrs = record host { local_addrs = map ip_string addrs }

  -- `default_interval` is that of `cfg_logs`.
  unfoldable pub on_cfg_change : ℤ → SrvLog → ℕ → Watched Ip Subnet → Result (Watched Ip Subnet)
  unfolding cfg_net
  on_cfg_change default_interval srv_log change_count w =
      let reports = cfg_crash_reports ini in
      let (store, calls) = cfg_logs ini default_interval srv_log w.store in
      do
        net ← cfg_net ini lib (host_on w.local_addrs) run_cfg mode change_count w.net
        ok (record w {
          reports = reports;
          store = store;
          intervals = w.intervals ++ calls;
          net = net;
        })

  abbrev put_net : Watched Ip Subnet → NetState Subnet → Result (Watched Ip Subnet)
  put_net w net = ok (record w { net = net })

  -- A minute: the network is configured anew, as for the first time, if addresses came or went.
  unfoldable pub on_minute : List Text → Watched Ip Subnet → Result (Watched Ip Subnet)
  unfolding cfg_net
  on_minute addrs w =
      let (new, n) = net_enum_addrs ip_string read_ip addrs w.local_addrs in
      let w' = record w { local_addrs = new } in
      if ltb 0 n then cfg_net ini lib (host_on new) run_cfg mode 0 w.net >>= put_net w' else ok w'

  -- The loop, while there are events.
  unfoldable pub watch : List NetEvent → Watched Ip Subnet → Result (Watched Ip Subnet)
  unfolding on_minute
  watch [] w = ok w
  watch (ended ∷ es) w = ok w
  watch (minute addrs ∷ es) w = do w' ← on_minute addrs w; watch es w'
