-- ===== src/HttpSrv/Stop/Ends.antt =====
-- What a shutdown of the network leaves.
use srv_app.Base.{◌≡◌, refl, ap, ◌∙◌, Bool, true, [], Text}
use srv_app.Geo.{GeoIpData}
use srv_app.Stats.Queue.{Queue, returned, Steps}
use srv_app.Stats.Queue.Stopping.{signalled_ends}
use srv_app.HttpSrv.{HttpSrv}
use srv_app.HttpSrv.Info.{get_srv_addrs}
use srv_app.HttpSrv.Info.Laws.{is_all_closing, shutdown_lem}
use srv_app.HttpSrv.Stop.{Net, net_shutdown}

-- Nothing that happens in the wait configures the server.
abbrev pub IsQuiet : {G : Type 0} → (Net G → Net G) → Type 0
IsQuiet {G} waiting = (net : Net G) → (waiting net).srv ≡ net.srv

-- The listeners and the addresses behind a wait without a configuration.
pub net_shutdown-listeners :
    {G : Type 0} (closes : Text → Bool) (waiting : Net G → Net G) (net : Net G)
    → IsQuiet waiting
    → let down = net_shutdown closes waiting net in
      (is_all_closing down.srv.private_side.listeners ≡ true)
      × (is_all_closing down.srv.public_side.listeners ≡ true)
      × (get_srv_addrs down.srv ≡ get_srv_addrs net.srv)
unfolding net_shutdown
net_shutdown-listeners closes waiting net quiet =
    let (closing, closing', _, addrs, _) = shutdown_lem closes closes net.srv in
    let same = quiet (record net { srv = _; watch_signalled = true }) in
    (
      ap (λ (srv : HttpSrv). is_all_closing srv.private_side.listeners) same ∙ closing,
      ap (λ (srv : HttpSrv). is_all_closing srv.public_side.listeners) same ∙ closing',
      ap get_srv_addrs same ∙ addrs,
    )

-- After `netShutdown`, wherever the goroutines stood and whatever they did while it waited for the
-- loop of `netInit`, save that no configuration took effect in that time: every listener of both sides
-- is closing, and the addresses that are reported stay; and the goroutines of the statistics can all
-- end. Steps lead to a state in which the one that stores events has returned and none is pending, and
-- from there on nothing is written to the buffer, whatever is logged.
pub net_shutdown_ends :
    {G : Type 0} (resolve : G → Text → G × GeoIpData) (closes : Text → Bool)
    (waiting : Net G → Net G) (net : Net G)
    → IsQuiet waiting
    → let down = net_shutdown closes waiting net in
      (is_all_closing down.srv.private_side.listeners ≡ true)
      × (is_all_closing down.srv.public_side.listeners ≡ true)
      × (get_srv_addrs down.srv ≡ get_srv_addrs net.srv)
      × ((u : Queue G) × Steps resolve down.queue u
          × (u.consumer ≡ returned)
          × (u.pending ≡ [])
          × ((v : Queue G) → Steps resolve u v → v.ring ≡ u.ring))
unfolding net_shutdown
net_shutdown_ends resolve closes waiting net quiet =
    let (closing, closing', addrs) = net_shutdown-listeners closes waiting net quiet in
    (closing, closing', addrs, signalled_ends resolve (net_shutdown closes waiting net).queue refl)
