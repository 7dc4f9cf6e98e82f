-- ===== src/Config/Watch/History/Entries.antt =====
-- What a history keeps of the multiplexers, and the access list that it leaves.
use srv_app.Base.{
  ℕ, ◌≡◌, refl, sym, ap, ◌∙◌, Bool, true, false, List, [], some, Text, ok, >>=-eq-ok, Bool-cases,
  inl, inr, if◌then◌else◌, map, Option,
}
use srv_app.Access.{AccessNet}
use srv_app.Addrs.{net_enum_addrs}
use srv_app.Mux.{MuxEntry}
use srv_app.HttpSrv.Register.{ok-inj}
use srv_app.HttpSrv.Configure.{Host, on_priv_static_srv_uri, on_pub_static_srv_uri}
use srv_app.HttpSrv.Configure.Entries.{static_handler, Passes, AllPass, configure-AllPass}
use srv_app.Config.{Ini}
use srv_app.Config.Net.{NetState, is_on, settings_of, cfg_net}
use srv_app.Config.Net.Effect.{cfg_net_lem, cfg_net_off}
use srv_app.Config.Watch.{Watched, on_cfg_change, on_minute}
use srv_app.Config.Watch.History.{
  Env, History, start, changed, minute, host_at, change, pass_minute, has_moved, in_force, list_of,
}

module _ {Section Val Ip Subnet : Type 0} (env : Env Ip Subnet) where
  -- A change configures the network.
  change-net :
      (ini : Ini Section Val) (host : Host Ip Subnet) (n : ℕ) (w w' : Watched Ip Subnet)
      → change env ini host n w ≡ ok w'
      → (host' : Host Ip Subnet) × (host'.contains ≡ host.contains)
        × (cfg_net ini env.lib host' env.run_cfg env.mode n w.net ≡ ok w'.net)
  unfolding on_cfg_change
  change-net ini host n w w' e =
      let host' = record host { local_addrs = map env.ip_string w.local_addrs } in
      let (net, done, same) =
        >>=-eq-ok (cfg_net ini env.lib host' env.run_cfg env.mode n w.net) _ e in
      (host', refl, done ∙ ap (λ (u : Watched Ip Subnet). ok u.net) (ok-inj same))

  -- A minute does so if an address has come or gone, and else leaves the network.
  pass_minute-net :
      (ini : Ini Section Val) (host : Host Ip Subnet) (texts : List Text) (w w' : Watched Ip Subnet)
      → pass_minute env ini host texts w ≡ ok w'
      → (host' : Host Ip Subnet) × (host'.contains ≡ host.contains)
        × ((if has_moved env texts w
              then cfg_net ini env.lib host' env.run_cfg env.mode 0 w.net
              else ok w.net)
            ≡ ok w'.net)
  unfolding on_minute
  pass_minute-net ini host texts w w' e =
      let new = (net_enum_addrs env.ip_string env.read_ip texts w.local_addrs).0 in
      let host' = record host { local_addrs = map env.ip_string new } in
      elim (Bool-cases (has_moved env texts w)) [
        | inl moved ↦
            let (net, done, same) =
              >>=-eq-ok (cfg_net ini env.lib host' env.run_cfg env.mode 0 w.net) _
                (rw moved at e) in
            (host', refl, rw moved (done ∙ ap (λ (u : Watched Ip Subnet). ok u.net) (ok-inj same)))
        | inr stayed ↦
            let same = rw stayed at e in
            (host', refl, rw stayed (ap (λ (u : Watched Ip Subnet). ok u.net) (ok-inj same)))
      ]

  module _ (p q : MuxEntry → Bool)
      (pass : (level : ℕ) → Passes p (static_handler on_priv_static_srv_uri level))
      (pass' : (level : ℕ) → Passes q (static_handler on_pub_static_srv_uri level)) where
    -- What a configuration keeps, and the access list after it.
    abbrev IsKept : Bool → Ini Section Val → NetState Subnet → NetState Subnet → Type 0
    IsKept configured ini net net' =
        AllPass p q net'.http_srv
        × (net'.access_list ≡ (if configured then list_of env (some ini) else net.access_list))

    cfg_net-IsKept :
        (ini : Ini Section Val) (host : Host Ip Subnet) (n : ℕ) (net net' : NetState Subnet)
        → host.contains ≡ env.host.contains
        → AllPass p q net.http_srv
        → cfg_net ini env.lib host env.run_cfg env.mode n net ≡ ok net'
        → IsKept (is_on env.run_cfg env.mode) ini net net'
    cfg_net-IsKept ini host n net net' same h e = elim (Bool-cases (is_on env.run_cfg env.mode)) [
      | inl on ↦
          let (done, list, _) = cfg_net_lem ini env.lib host env.run_cfg env.mode n net net' on e in
          rw on (
            configure-AllPass p q host net.http_srv net'.http_srv (settings_of ini env.lib n)
                (pass _, pass' _) h done,
            rw (← same) list,
          )
      | inr off ↦
          let unchanged : net' ≡ net =
            ok-inj (sym e ∙ cfg_net_off ini env.lib host env.run_cfg env.mode n net off) in
          rw (off, unchanged) (h, refl)
    ]

    in_force-list :
        (b : Bool) (ini : Ini Section Val) (o : Option (Ini Section Val))
        (before after : List (AccessNet Subnet))
        → before ≡ list_of env o
        → after ≡ (if b then list_of env (some ini) else before)
        → after ≡ list_of env (if b then some ini else o)
    in_force-list true ini o before after e e' = e'
    in_force-list false ini o before after e e' = e' ∙ e

    -- Whatever the history: every entry still passes, and the access list is that of the last
    -- configuration that was put into effect.
    pub History-entries :
        {w v : Watched Ip Subnet} (h : History Section Val env w v)
        → AllPass p q w.net.http_srv
        → w.net.access_list ≡ []
        → AllPass p q v.net.http_srv × (v.net.access_list ≡ list_of env (in_force env h))
    History-entries start a e = (a, e)
    History-entries {w = w} {v = v} (changed {u = u} ini private public n h made) a e =
        let (before, list) = History-entries h a e in
        let (host, same, done) = change-net ini (host_at env private public) n u v made in
        let (after, list') = cfg_net-IsKept ini host n u.net v.net same before done in
        (after, in_force-list (is_on env.run_cfg env.mode) ini (in_force env h) _ _ list list')
    History-entries {w = w} {v = v} (minute {u = u} ini private public texts h made) a e =
        let (before, list) = History-entries h a e in
        let (host, same, done) = pass_minute-net ini (host_at env private public) texts u v made in
        elim (Bool-cases (has_moved env texts u)) [
          | inl moved ↦
              let (after, list') =
                cfg_net-IsKept ini host 0 u.net v.net same before (rw moved at done) in
              (
                after,
                rw moved (
                    in_force-list (is_on env.run_cfg env.mode) ini (in_force env h) _ _ list list'),
              )
          | inr stayed ↦
              let kept : u.net ≡ v.net = ok-inj (rw stayed at done) in
              rw (← kept, stayed) (before, list)
        ]
