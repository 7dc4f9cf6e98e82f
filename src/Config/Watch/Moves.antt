-- ===== src/Config/Watch/Moves.antt =====
-- The private listeners when addresses come or go.
use srv_app.Base.{
  ◌<◌, ◌≡◌, refl, true, List, map, Option, Text, arith, ap, subst, ltb, ok, >>=-eq-ok,
}
use srv_app.Dict.{member, IsMap}
use srv_app.Addrs.{net_enum_addrs}
use srv_app.Addrs.Changes.{read_ips, net_enum_addrs_zero}
use srv_app.HttpSrv.Register.{ok-inj}
use srv_app.HttpSrv.Configure.{Host}
use srv_app.HttpSrv.Configure.Listeners.{IsPrivateAddr, configure-private}
use srv_app.Life.{RunMode}
use srv_app.Life.Startup.{RunCfg}
use srv_app.Config.{Ini}
use srv_app.Config.Net.{NetState, NetLib, settings_of, is_on, cfg_net}
use srv_app.Config.Net.Effect.{cfg_net_lem}
use srv_app.Config.Watch.{Watched, on_minute}

module _ {Section Val Ip Subnet : Type 0} (ini : Ini Section Val) (lib : NetLib Ip Subnet)
    (host : Host Ip Subnet) (ip_string : Ip → Text) (read_ip : Text → Option Ip) (run_cfg : RunCfg)
    (mode : RunMode) where
  -- The first configuration, and each one that the change of an address causes.
  cfg_net-private :
      (host' : Host Ip Subnet) (net net' : NetState Subnet) (k : Text)
      → IsMap net.http_srv.private_side.listeners
      → is_on run_cfg mode ≡ true
      → cfg_net ini lib host' run_cfg mode 0 net ≡ ok net'
      → member k net'.http_srv.private_side.listeners ≡ true
      → IsPrivateAddr host' (settings_of ini lib 0) k
  cfg_net-private host' net net' k distinct on e found =
      let (done, _, _) = cfg_net_lem ini lib host' run_cfg mode 0 net net' on e in
      let s = settings_of ini lib 0 in
      let forced : s.force_restart ≡ true = unfold settings_of in refl in
      configure-private host' net.http_srv net'.http_srv s k distinct (ground arith) done found

  -- In a run mode that has its servers, a minute in which an address has come or gone, and that does
  -- not panic, leaves a private listener only on an address that the interfaces have now, in a private
  -- net and not to be ignored, at a port of the configuration that is switched on.
  pub on_minute-private :
      (texts : List Text) (w w' : Watched Ip Subnet) (k : Text)
      → is_on run_cfg mode ≡ true
      → IsMap w.net.http_srv.private_side.listeners
      → 0 < (net_enum_addrs ip_string read_ip texts w.local_addrs).1
      → on_minute ini lib host ip_string read_ip run_cfg mode texts w ≡ ok w'
      → member k w'.net.http_srv.private_side.listeners ≡ true
      → IsPrivateAddr
          (record host { local_addrs = map ip_string (read_ips ip_string read_ip texts) })
          (settings_of ini lib 0)
          k
  unfolding on_minute
  on_minute-private texts w w' k on distinct changed e found =
      let new = (net_enum_addrs ip_string read_ip texts w.local_addrs).0 in
      let n = (net_enum_addrs ip_string read_ip texts w.local_addrs).1 in
      let counted : ltb 0 n ≡ true = ground arith in
      let configured = rw counted at e in
      let (net, done, same) =
        >>=-eq-ok
          (cfg_net ini lib (record host { local_addrs = map ip_string new }) run_cfg mode 0 w.net) _
          configured in
      let moved : net ≡ w'.net = ap (λ (u : Watched Ip Subnet). u.net) (ok-inj same) in
      let found' = rw (← moved) at found in
      subst
        (λ (l : List Ip).
          IsPrivateAddr (record host { local_addrs = map ip_string l }) (settings_of ini lib 0) k)
        (net_enum_addrs_zero ip_string read_ip texts w.local_addrs).0
        (cfg_net-private (record host { local_addrs = map ip_string new }) w.net net k distinct on
          done found')
