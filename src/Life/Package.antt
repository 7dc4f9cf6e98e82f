-- ===== src/Life/Package.antt =====
-- srvApp.go: the variables of the package, the functions that read them, and what the steps of
-- `InitCfg` do to them. A variable that is nil is none.
pub mod Started
mod Tests
use srv_app.Base.{
  ℕ, Bool, true, false, List, [], ◌∷◌, ◌++◌, Option, none, some, Text, codes, Result, ok, panic,
  ◌>>=◌,
}
use srv_app.Logs.{SrvLog, Store, Notifier, new_srv_log}
use srv_app.HttpSrv.{HttpSrv, new_http_srv}
use srv_app.HttpSrv.Builtin.{net_init}
use srv_app.Life.{App, RunMode, new_app}
use srv_app.Life.Service.{Scm}
use srv_app.Life.Startup.{
  RunCfg, Flags, InitStep, chdir, init_logs, add_uptime, new_ini, add_file_handler,
  add_email_handler, catch_sig_int, catch_crash, subscribe, init_cfg,
}

-- The functions that the package gives to `crash.AddHandler` and to `ini.Subscribe`.
pub data CrashHandler : Type 0 where
  to_file : Text → CrashHandler
  to_email : CrashHandler

pub data Subscriber : Type 0 where
  geo_on_config_change on_cfg_change : Subscriber

-- `app_config` is the path of the ini file, `app_counters` the names of the counters. The handlers and
-- the subscribers are in the order in which they were added. `debug_logger` and `error_logger` are
-- `trace.DebugLogger` and `trace.ErrorLogger`.
pub record Vars : Type 0 where
  pub app_config : Option Text
  pub app_counters : List Text
  pub crash_dir : Text
  pub config_dir : Text
  pub log_dir : Text
  pub email_crash_handler : Option CrashHandler
  pub file_crash_handler : Option CrashHandler
  pub http_srv : HttpSrv
  pub srv_log : Option (SrvLog × Store)
  pub log_buffer : Option Notifier
  pub debug_logger : Option SrvLog
  pub error_logger : Option SrvLog
  pub run_cfg : Option RunCfg
  pub app : App
  pub crash_handlers : List CrashHandler
  pub subscribers : List Subscriber

abbrev pub in_dir : Text → Text → Text
in_dir dir name = dir ++ (codes "/" ++ name)

-- `exe_dir` is `app.GetExeDir()`.
unfoldable pub new_vars : Text → Vars
unfolding new_http_srv new_app
new_vars exe_dir = record {
  app_config = none;
  app_counters = [];
  crash_dir = in_dir exe_dir (codes "crash");
  config_dir = in_dir exe_dir (codes "config");
  log_dir = in_dir exe_dir (codes "log");
  email_crash_handler = none;
  file_crash_handler = none;
  http_srv = new_http_srv;
  srv_log = none;
  log_buffer = none;
  debug_logger = none;
  error_logger = none;
  run_cfg = none;
  app = new_app;
  crash_handlers = [];
  subscribers = [];
}

unfoldable pub app_config : Vars → Option Text
app_config v = v.app_config

unfoldable pub app_counters : Vars → List Text
app_counters v = v.app_counters

unfoldable pub app_process : Vars → Option ℕ
app_process v = v.app.app_process

unfoldable pub crash_dir : Vars → Text
crash_dir v = v.crash_dir

unfoldable pub config_dir : Vars → Text
config_dir v = v.config_dir

unfoldable pub email_crash_handler : Vars → Option CrashHandler
email_crash_handler v = v.email_crash_handler

unfoldable pub file_crash_handler : Vars → Option CrashHandler
file_crash_handler v = v.file_crash_handler

unfoldable pub http : Vars → HttpSrv
http v = v.http_srv

unfoldable pub log : Vars → Option (SrvLog × Store)
log v = v.srv_log

unfoldable pub log_buffer : Vars → Option Notifier
log_buffer v = v.log_buffer

unfoldable pub log_dir : Vars → Text
log_dir v = v.log_dir

unfoldable pub query_runmode : Vars → RunMode
query_runmode v = v.app.run_mode

unfoldable pub query_shutdown : Vars → Bool
query_shutdown v = v.app.shutting_down

abbrev pub app_uptime_counter : Text
app_uptime_counter = codes "app.uptime_sec"

abbrev pub geo_init : Vars → Vars
geo_init v = record v { subscribers = v.subscribers ++ geo_on_config_change ∷ [] }

-- `buffer` and `file_log` are what `log.NewLogBuffer` and `flog.New` return, `name` is `app.GetName()`,
-- `path_string` that of the registrations.
module _ (buffer file_log : Notifier) (name : Text) (path_string : Text → Text) where
  -- `initLogs`, in front of its loop.
  unfoldable pub set_loggers : Vars → Vars
  unfolding new_srv_log
  set_loggers v =
      let logger = new_srv_log buffer file_log [] in
      record v {
        log_buffer = some buffer;
        srv_log = some logger;
        debug_logger = some logger.0;
        error_logger = some logger.0;
      }

  -- What a step of `InitCfg` does to the variables.
  unfoldable pub do_step : InitStep → Vars → Result Vars
  unfolding net_init set_loggers
  do_step chdir v = ok v
  do_step init_logs v = ok (set_loggers v)
  do_step add_uptime v = ok (record v { app_counters = v.app_counters ++ app_uptime_counter ∷ [] })
  do_step new_ini v =
      ok (record v { app_config = some (in_dir v.config_dir (name ++ codes ".ini")) })
  do_step add_file_handler v =
      let handler = to_file v.crash_dir in
      ok (record v {
        file_crash_handler = some handler;
        crash_handlers = v.crash_handlers ++ handler ∷ [];
      })
  do_step add_email_handler v = ok (record v {
    email_crash_handler = some to_email;
    crash_handlers = v.crash_handlers ++ to_email ∷ [];
  })
  do_step catch_sig_int v = ok v
  do_step catch_crash v = ok v
  do_step InitStep.net_init v = do
    srv ← net_init path_string v.http_srv
    ok (geo_init (record v { http_srv = srv }))
  do_step subscribe v = ok (record v { subscribers = v.subscribers ++ on_cfg_change ∷ [] })

  unfoldable pub do_steps : List InitStep → Vars → Result Vars
  unfolding do_step
  do_steps [] v = ok v
  do_steps (s ∷ steps) v = do v' ← do_step s v; do_steps steps v'

  -- `InitCfg` on the variables.
  unfoldable pub init_vars : Bool → Flags → Scm → RunCfg → Vars → Result Vars
  unfolding do_steps init_cfg
  init_vars windows flags scm cfg v =
      let (app', steps) = (init_cfg windows flags scm cfg v.app).1 in
      do_steps steps (record v { run_cfg = some cfg; app = app' })
