-- ===== src/Life/Whole/Ends.antt =====
-- The application after its run.
use srv_app.Base.{ℕ, true, false, ◌&&◌, List, ◌++◌, map, if◌then◌else◌}
use srv_app.HttpSrv.{HttpSrv}
use srv_app.HttpSrv.Stop
use srv_app.HttpSrv.Stop.{Net}
use srv_app.Logs.{SrvLog, close}
use srv_app.Life
use srv_app.Life.{App}
use srv_app.Life.Whole.{Around, System}

-- Each subscriber with the server.
abbrev pub with_server : HttpSrv → List ℕ → List (ℕ × HttpSrv)
with_server srv = map (λ f. (f, srv))

module _ {G : Type 0} (around : Around G) (l : SrvLog) where
  -- The network when the package ini is shut down.
  abbrev down : System G → Net G
  down s =
      let net = Stop.net_shutdown around.closes around.waiting s.net in
      record net { srv = around.configured net.srv }

  -- The parts after the whole shutdown.
  abbrev ended : App → System G → System G
  ended app s = record s {
    net = down s;
    is_ini_shut = true;
    crash = record s.crash { is_closed = true };
    has_pid_file = if app.clean_pid && around.deletes then false else s.has_pid_file;
    closed = close l s.store;
    is_complete = true;
    seen = s.seen ++ with_server s.net.srv app.shutdown_subs;
  }
