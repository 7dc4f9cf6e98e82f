-- ===== src/HttpSrv/Builtin/Handlers.antt =====
-- uriHandlers.go and `ipsOnUri` of ipStats.go: the functions that `netInit` registers. What they
-- start is a list of commands; the static directories are in another module.
pub mod Commands
mod Tests
use srv_app.Base.{ℕ, List, [], ◌∷◌, Option, none, some, Text, codes, ◌==◌, if◌then◌else◌}
use srv_app.HttpSrv.Builtin.{
  on_crash_uri, on_shutdown_uri, on_update_config_uri, on_rotate_logs_uri, on_app_info_uri,
  on_config_uri, on_counters_uri, on_logs_uri, on_ping_uri, ips_on_uri,
}

-- What a handler sets off: a crash and a shutdown after two seconds, `ini.ForceUpdate`, and a message
-- to the goroutine that rotates the logs.
pub data Command : Type 0 where
  crash_later shutdown_later force_update rotate_logs : Command

-- What is written: a text, or the status 500. A handler of the package pprof is not read here.
pub data Reply : Type 0 where
  wrote : Text → Reply
  internal_error silent foreign : Reply

-- The texts of `json.MarshalIndent` and `json.Marshal`, none on an error; and that of the ini file.
pub record Pages : Type 0 where
  pub app_info : Option Text
  pub counters : Option Text
  pub logs : Option Text
  pub ips : Option Text
  pub config : Text

-- What the handlers of a page do with its text.
unfoldable pub write_json : Option Text → Reply × List Command
write_json none = (internal_error, [])
write_json (some js) = (wrote js, [])

-- `OnAppInfoUri`, `OnCountersUri`, `OnLogsUri` and `ipsOnUri`
abbrev pub on_app_info : Pages → Reply × List Command
on_app_info pages = write_json pages.app_info

abbrev pub on_counters : Pages → Reply × List Command
on_counters pages = write_json pages.counters

abbrev pub on_logs : Pages → Reply × List Command
on_logs pages = write_json pages.logs

abbrev pub on_ips : Pages → Reply × List Command
on_ips pages = write_json pages.ips

unfoldable pub on_crash : Reply × List Command
on_crash = (wrote (codes "Crash initiated\n"), crash_later ∷ [])

unfoldable pub on_shutdown : Reply × List Command
on_shutdown = (wrote (codes "Shutdown initiated\n"), shutdown_later ∷ [])

unfoldable pub on_update_config : Reply × List Command
on_update_config = (silent, force_update ∷ [])

unfoldable pub on_rotate_logs : Reply × List Command
on_rotate_logs = (silent, rotate_logs ∷ [])

unfoldable pub on_config : Pages → Reply × List Command
on_config pages = (wrote pages.config, [])

unfoldable pub on_ping : Reply × List Command
on_ping = (wrote (codes "200 - OK"), [])

-- The function that the number names.
unfoldable pub call : Pages → ℕ → Reply × List Command
unfolding write_json on_crash on_shutdown on_update_config on_rotate_logs on_config on_ping
call pages n =
    if n == on_crash_uri
    then on_crash
    else if n == on_shutdown_uri
    then on_shutdown
    else if n == on_update_config_uri
    then on_update_config
    else if n == on_rotate_logs_uri
    then on_rotate_logs
    else if n == on_app_info_uri
    then on_app_info pages
    else if n == on_config_uri
    then on_config pages
    else if n == on_counters_uri
    then on_counters pages
    else if n == on_logs_uri
    then on_logs pages
    else if n == on_ping_uri
    then on_ping
    else if n == ips_on_uri
    then on_ips pages
    else (foreign, [])
