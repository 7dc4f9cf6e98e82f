-- ===== src/Config/Watch/History.antt =====
-- config.go and net.go: the network under any number of changes of the configuration and minutes of
-- `netInit`'s goroutine, in any order, each with a configuration of its own.
pub mod Entries
pub mod Commands
mod Tests
use srv_app.Base.{
  ℕ, ◌≡◌, Bool, ◌&&◌, List, [], Option, none, some, Text, ℤ, ltb, if◌then◌else◌, Result, ok,
}
use srv_app.Addrs.{net_enum_addrs}
use srv_app.Access.{AccessNet, cfg_access}
use srv_app.Logs.{SrvLog}
use srv_app.HttpSrv.Restart.{Sockets}
use srv_app.HttpSrv.Configure.{Host}
use srv_app.Life.{RunMode}
use srv_app.Life.Startup.{RunCfg}
use srv_app.Config.{Ini}
use srv_app.Config.Net.{NetLib, is_on, access_rights}
use srv_app.Config.Watch.{Watched, on_cfg_change, on_minute}

-- What stays while the program runs.
pub record Env (Ip Subnet : Type 0) : Type 0 where
  pub lib : NetLib Ip Subnet
  pub host : Host Ip Subnet
  pub ip_string : Ip → Text
  pub read_ip : Text → Option Ip
  pub run_cfg : RunCfg
  pub mode : RunMode
  pub default_interval : ℤ
  pub srv_log : SrvLog

module _ {Ip Subnet : Type 0} (env : Env Ip Subnet) where
  -- The host, with what the system answers at a time.
  abbrev pub host_at : Sockets → Sockets → Host Ip Subnet
  host_at private public = record env.host { private_sockets = private; public_sockets = public }

  -- `onCfgChange`, and a minute, with a configuration.
  abbrev pub change :
      {Section Val : Type 0}
      → Ini Section Val
      → Host Ip Subnet
      → ℕ
      → Watched Ip Subnet
      → Result (Watched Ip Subnet)
  change ini host n w =
      on_cfg_change ini env.lib host env.ip_string env.read_ip env.run_cfg env.mode
        env.default_interval env.srv_log n w

  abbrev pub pass_minute :
      {Section Val : Type 0}
      → Ini Section Val
      → Host Ip Subnet
      → List Text
      → Watched Ip Subnet
      → Result (Watched Ip Subnet)
  pass_minute ini host texts w =
      on_minute ini env.lib host env.ip_string env.read_ip env.run_cfg env.mode texts w

  -- Whether the enumeration of a minute finds a change.
  abbrev pub has_moved : List Text → Watched Ip Subnet → Bool
  has_moved texts u = ltb 0 (net_enum_addrs env.ip_string env.read_ip texts u.local_addrs).1

module _ (Section Val : Type 0) {Ip Subnet : Type 0} (env : Env Ip Subnet) where
  -- The changes and the minutes, none of which panics.
  pub data History (w : Watched Ip Subnet) : Watched Ip Subnet → Type 0 where
    start : History w w
    changed :
        {u v : Watched Ip Subnet} (ini : Ini Section Val) (private public : Sockets) (n : ℕ)
        → History w u
        → change env ini (host_at env private public) n u ≡ ok v
        → History w v
    minute :
        {u v : Watched Ip Subnet} (ini : Ini Section Val) (private public : Sockets)
        (texts : List Text)
        → History w u
        → pass_minute env ini (host_at env private public) texts u ≡ ok v
        → History w v

module _ {Section Val Ip Subnet : Type 0} (env : Env Ip Subnet) where
  -- The last configuration that was put into effect.
  abbrev pub in_force :
      {w v : Watched Ip Subnet} → History Section Val env w v → Option (Ini Section Val)
  in_force start = none
  in_force (changed ini _ _ _ h _) =
      let before = in_force h in if is_on env.run_cfg env.mode then some ini else before
  in_force (minute {u = u} ini _ _ texts h _) =
      let before = in_force h in
      if has_moved env texts u && is_on env.run_cfg env.mode then some ini else before

  -- The access list of a configuration; there is none before the first.
  abbrev pub list_of : Option (Ini Section Val) → List (AccessNet Subnet)
  list_of none = []
  list_of (some ini) =
      cfg_access env.host.contains env.lib.to_lower env.lib.parse_cidr (access_rights ini env.lib)
