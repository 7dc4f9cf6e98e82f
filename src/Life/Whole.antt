-- ===== src/Life/Whole.antt =====
-- srvApp.go: what the calls of `_shutdown` and of `blockUntilShutdown` do to the parts of the
-- application.
pub mod Ends
use srv_app.Base.{ℕ, Bool, true, false, List, [], ◌∷◌, ◌++◌, Text, if◌then◌else◌}
use srv_app.HttpSrv.{HttpSrv}
use srv_app.HttpSrv.Stop
use srv_app.HttpSrv.Stop.{Net}
use srv_app.Logs.{SrvLog, Store, close}
use srv_app.Life.{Action}
use srv_app.Life.Crash.{CrashState}

-- The parts: the network, whether the package ini is shut down, the crash channel, whether the PID
-- file is there, the services of the logs with those that are closed, and whether the shutdown is
-- complete. `seen` has the subscribers that were called, each with the server at that time.
-- (What the subscribers, which are the application's, do themselves is left out.)
pub record System (G : Type 0) : Type 0 where
  pub net : Net G
  pub is_ini_shut : Bool
  pub crash : CrashState
  pub has_pid_file : Bool
  pub store : Store
  pub closed : List ℕ
  pub is_complete : Bool
  pub seen : List (ℕ × HttpSrv)

-- What the steps of a shutdown meet: `closes` and `waiting` are those of `net_shutdown`; `configured` is
-- what configurations do to the server from there until the package ini is shut down; and `deletes`
-- says whether `DeletePidFile` succeeds, whose error is logged only.
pub record Around (G : Type 0) : Type 0 where
  pub closes : Text → Bool
  pub waiting : Net G → Net G
  pub configured : HttpSrv → HttpSrv
  pub deletes : Bool

-- `l` is the package's logger.
module _ {G : Type 0} (around : Around G) (l : SrvLog) where
  unfoldable pub perform : Action → System G → System G
  unfolding Stop.net_shutdown close
  perform (Action.notify f) s = record s { seen = s.seen ++ (f, s.net.srv) ∷ [] }
  perform Action.net_shutdown s = record s {
    net = Stop.net_shutdown around.closes around.waiting s.net;
  }
  perform Action.ini_shutdown s = record s {
    net = record s.net { srv = around.configured s.net.srv };
    is_ini_shut = true;
  }
  perform Action.close_crash_chan s = record s { crash = record s.crash { is_closed = true } }
  perform Action.delete_pid_file s = record s {
    has_pid_file = if around.deletes then false else s.has_pid_file;
  }
  perform Action.close_logs s = record s { closed = close l s.store }
  perform Action.complete s = record s { is_complete = true }

  unfoldable pub perform_all : List Action → System G → System G
  unfolding perform
  perform_all [] s = s
  perform_all (a ∷ xs) s = perform_all xs (perform a s)
