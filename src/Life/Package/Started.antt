-- ===== src/Life/Package/Started.antt =====
-- The variables after the start-up.
use srv_app.Base.{◌≡◌, false, [], ◌∷◌, ◌++◌, some, Text, codes}
use srv_app.Logs.{Notifier, new_srv_log}
use srv_app.HttpSrv.{HttpSrv}
use srv_app.Life.{App}
use srv_app.Life.Startup.{RunCfg}
use srv_app.Life.Package.{
  Vars, to_file, to_email, geo_on_config_change, on_cfg_change, in_dir, new_vars, app_config,
  app_counters, crash_dir, config_dir, log_dir, log_buffer, email_crash_handler, file_crash_handler,
  http, log, query_shutdown, app_uptime_counter,
}

module _ (buffer file_log : Notifier) (name : Text) (path_string : Text → Text)
    (exe_dir : Text) where
  -- What the functions of the package return after a start-up with the given server.
  pub record IsStarted (v : Vars) (srv : HttpSrv) : Type 0 where
    pub config :
        app_config v ≡ some (in_dir (in_dir exe_dir (codes "config")) (name ++ codes ".ini"))
    pub dirs :
        (crash_dir v ≡ in_dir exe_dir (codes "crash"))
        × (config_dir v ≡ in_dir exe_dir (codes "config"))
        × (log_dir v ≡ in_dir exe_dir (codes "log"))
    pub counters : app_counters v ≡ app_uptime_counter ∷ []
    pub file : file_crash_handler v ≡ some (to_file (in_dir exe_dir (codes "crash")))
    pub email : email_crash_handler v ≡ some to_email
    pub handlers : v.crash_handlers ≡ to_file (in_dir exe_dir (codes "crash")) ∷ to_email ∷ []
    pub subscribed : v.subscribers ≡ geo_on_config_change ∷ on_cfg_change ∷ []
    pub logs : log v ≡ some (new_srv_log buffer file_log [])
    pub traces :
        (v.debug_logger ≡ some (new_srv_log buffer file_log []).0)
        × (v.error_logger ≡ v.debug_logger)
    pub server : http v ≡ srv
    pub buffered : log_buffer v ≡ some buffer
    pub runs : query_shutdown v ≡ false

  -- The variables that the start-up leaves.
  abbrev started : App → RunCfg → HttpSrv → Vars
  started app cfg srv = record (new_vars exe_dir) {
    run_cfg = some cfg;
    app = app;
    log_buffer = some buffer;
    srv_log = some (new_srv_log buffer file_log []);
    debug_logger = some (new_srv_log buffer file_log []).0;
    error_logger = some (new_srv_log buffer file_log []).0;
    app_counters = app_uptime_counter ∷ [];
    app_config = some (in_dir (in_dir exe_dir (codes "config")) (name ++ codes ".ini"));
    file_crash_handler = some (to_file (in_dir exe_dir (codes "crash")));
    email_crash_handler = some to_email;
    crash_handlers = to_file (in_dir exe_dir (codes "crash")) ∷ to_email ∷ [];
    subscribers = geo_on_config_change ∷ on_cfg_change ∷ [];
    http_srv = srv;
  }
