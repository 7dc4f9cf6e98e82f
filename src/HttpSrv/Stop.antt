-- ===== src/HttpSrv/Stop.antt =====
-- net.go: `netShutdown`, over the parts that it stops.
pub mod Ends
pub mod Late
mod Tests
use srv_app.Base.{Bool, true, Text}
use srv_app.Stats.Queue.{Queue, ips_shutdown}
use srv_app.HttpSrv.{HttpSrv}
use srv_app.HttpSrv.Info.{shutdown}

-- The server, whether `netShutdownSync` is started, and the goroutines of the request statistics.
pub record Net (G : Type 0) : Type 0 where
  pub srv : HttpSrv
  pub watch_signalled : Bool
  pub queue : Queue G

-- `netShutdown`; `closes` is that of `shutdown`. It waits for the loop of `netInit` before it goes on:
-- `waiting` is what other goroutines do to the parts from the closing of the listeners to the end of
-- the wait, a configuration of the server included. (`geoShutdown` is empty.)
unfoldable pub net_shutdown : {G : Type 0} → (Text → Bool) → (Net G → Net G) → Net G → Net G
unfolding shutdown
net_shutdown closes waiting net =
    let closed = record net { srv = (shutdown closes net.srv).0; watch_signalled = true } in
    let waited = waiting closed in record waited { queue = ips_shutdown waited.queue }
