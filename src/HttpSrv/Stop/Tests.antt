-- ===== src/HttpSrv/Stop/Tests.antt =====
-- A server with a listener, and events that wait.
use srv_app.Base.{ℕ, ◌+◌, ◌≡◌, refl, true, false, [], ◌∷◌, none, Text, codes}
use srv_app.Geo.{GeoIpData, geo_data_local}
use srv_app.Mux.Serve.{ReqStatus}
use srv_app.Stats.{RequestLog, new_request_log}
use srv_app.Stats.Queue.{Queue, new_queue, received, returned, Steps}
use srv_app.HttpSrv.{new_http_srv}
use srv_app.HttpSrv.Info.{get_srv_addrs}
use srv_app.HttpSrv.Info.Laws.{is_all_closing}
use srv_app.HttpSrv.Stop.{Net, net_shutdown}
use srv_app.HttpSrv.Stop.Ends.{net_shutdown_ends}

abbrev resolve : ℕ → Text → ℕ × GeoIpData
resolve g host = (g + 1, geo_data_local)

abbrev event : ℕ → RequestLog
event now = new_request_log (codes "10.0.0.1") (codes "/") (codes "/") 2 ReqStatus.success now

abbrev queue : Queue ℕ
queue = record (new_queue 3 0) { pending = event 1 ∷ event 2 ∷ []; consumer = received (event 3) }

abbrev address : Text
address = codes "10.0.0.1:80"

abbrev net : Net ℕ
net = record {
  srv = record new_http_srv {
    private_side = record new_http_srv.private_side {
      listeners = (address, record { addr = address; closing = false; config = none }) ∷ [];
    };
  };
  watch_signalled = false;
  queue = queue;
}

-- In the wait an event is logged.
abbrev waiting : Net ℕ → Net ℕ
waiting net = record net { queue = record net.queue { pending = event 4 ∷ net.queue.pending } }

net_shutdown_ends_example :
    let down = net_shutdown (λ a. true) waiting net in
    (is_all_closing down.srv.private_side.listeners ≡ true)
    × (is_all_closing down.srv.public_side.listeners ≡ true)
    × (get_srv_addrs down.srv ≡ get_srv_addrs net.srv)
    × ((u : Queue ℕ) × Steps resolve down.queue u
        × (u.consumer ≡ returned)
        × (u.pending ≡ [])
        × ((v : Queue ℕ) → Steps resolve u v → v.ring ≡ u.ring))
net_shutdown_ends_example = net_shutdown_ends resolve (λ a. true) waiting net (λ n. refl)
