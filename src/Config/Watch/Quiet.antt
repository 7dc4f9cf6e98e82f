-- ===== src/Config/Watch/Quiet.antt =====
-- The network while the addresses stay.
use srv_app.Base.{
  ◌≤◌, ◌≡◌, refl, List, [], ◌∷◌, map, Option, Text, ap, ◌∙◌, Result, ok, ◌>>=◌, Memᴰ, ◌↔◌,
}
use srv_app.Addrs.{net_enum_addrs}
use srv_app.Addrs.Changes.{occurrences, read_ips, net_enum_addrs_zero, net_enum_addrs-same}
use srv_app.HttpSrv.Configure.{Host}
use srv_app.Life.{RunMode}
use srv_app.Life.Startup.{RunCfg}
use srv_app.Config.{Ini}
use srv_app.Config.Net.{NetLib}
use srv_app.Config.Watch.{Watched, NetEvent, minute, ended, on_minute, watch}

module _ {Section Val Ip Subnet : Type 0} (ini : Ini Section Val) (lib : NetLib Ip Subnet)
    (host : Host Ip Subnet) (ip_string : Ip → Text) (read_ip : Text → Option Ip) (run_cfg : RunCfg)
    (mode : RunMode) where
  -- The interfaces have these addresses, in this order, and none of them twice.
  abbrev pub HaveAddrs : List Ip → List Text → Type 0
  HaveAddrs addrs texts =
      (read_ips ip_string read_ip texts ≡ addrs)
      × ((k : Text) → occurrences k (map ip_string addrs) ≤ 1)

  -- At every minute of the events.
  abbrev pub IsQuiet : List Ip → List NetEvent → Type 0
  IsQuiet addrs [] = Unit
  IsQuiet addrs (ended ∷ es) = Unit
  IsQuiet addrs (minute texts ∷ es) = HaveAddrs addrs texts × IsQuiet addrs es

  on_minute_quiet :
      (texts : List Text) (w : Watched Ip Subnet)
      → HaveAddrs w.local_addrs texts
      → on_minute ini lib host ip_string read_ip run_cfg mode texts w ≡ ok w
  unfolding on_minute
  on_minute_quiet texts w (read, once) =
      let new : (net_enum_addrs ip_string read_ip texts w.local_addrs).0 ≡ w.local_addrs =
        (net_enum_addrs_zero ip_string read_ip texts w.local_addrs).0 ∙ read in
      let members : (k : Text)
          → Memᴰ k (map ip_string w.local_addrs)
            ↔ Memᴰ k (map ip_string (net_enum_addrs ip_string read_ip texts w.local_addrs).0) =
        λ k. rw new (λ m. m, λ m. m) in
      let none_changed =
        (net_enum_addrs-same ip_string read_ip texts w.local_addrs (λ k. rw read (once k))).1
          members in
      rw none_changed (ap (λ (l : List Ip). ok (record w { local_addrs = l })) new)

  -- While every enumeration reads the local addresses as they are, and none of them twice, the loop
  -- configures nothing: for any number of minutes the servers, the access list and the addresses stay.
  pub watch_quiet :
      (es : List NetEvent) (w : Watched Ip Subnet)
      → IsQuiet w.local_addrs es
      → watch ini lib host ip_string read_ip run_cfg mode es w ≡ ok w
  unfolding watch
  watch_quiet [] w h = refl
  watch_quiet (ended ∷ es) w h = refl
  watch_quiet (minute texts ∷ es) w (have, rest) =
      ap
        (λ (r : Result (Watched Ip Subnet)).
          r >>= watch ini lib host ip_string read_ip run_cfg mode es)
        (on_minute_quiet texts w have)
      ∙ watch_quiet es w rest
