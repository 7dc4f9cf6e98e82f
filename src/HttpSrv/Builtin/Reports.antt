-- ===== src/HttpSrv/Builtin/Reports.antt =====
-- uriHandlers.go and ipStats.go: the texts of the pages, from the state that they show.
mod Tests
use srv_app.Base.{List, Option, Text}
use srv_app.Stats.{RequestLog, Ring, get_buffer}
use srv_app.HttpSrv.{HttpSrv}
use srv_app.HttpSrv.Info.{NetInfo, get_net_info}
use srv_app.HttpSrv.Builtin.Handlers.{Pages}

pub record AppInfo : Type 0 where
  pub name : Text
  pub net_info : NetInfo

-- `json.MarshalIndent` and `json.Marshal` on what the pages show, none on an error; `C` stands for
-- the list of the package counters, `L` for the log buffer of the package log.
pub record Json (C L : Type 0) : Type 0 where
  pub app_info : AppInfo → Option Text
  pub counters : C → Option Text
  pub log_buffer : L → Option Text
  pub requests : List RequestLog → Option Text

-- `name` is `app.GetName()`.
unfoldable pub get_app_info : Text → HttpSrv → AppInfo
unfolding get_net_info
get_app_info name srv = record { name = name; net_info = get_net_info srv }

module _ {C L : Type 0} (json : Json C L) where
  unfoldable pub get_app_info_json : Text → HttpSrv → Option Text
  unfolding get_app_info
  get_app_info_json name srv = json.app_info (get_app_info name srv)

  unfoldable pub get_counters_json : C → Option Text
  get_counters_json counters = json.counters counters

  unfoldable pub get_logs_json : L → Option Text
  get_logs_json buffer = json.log_buffer buffer

  unfoldable pub ips_get_buffer_json : Ring RequestLog → Option Text
  unfolding get_buffer
  ips_get_buffer_json ring = json.requests (get_buffer ring)

  -- The pages of a server; `config` is the text of the ini file.
  abbrev pub pages_of : Text → HttpSrv → C → L → Text → Ring RequestLog → Pages
  pages_of name srv counters buffer config ring = record {
    app_info = get_app_info_json name srv;
    counters = get_counters_json counters;
    logs = get_logs_json buffer;
    ips = ips_get_buffer_json ring;
    config = config;
  }
