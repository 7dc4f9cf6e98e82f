-- ===== src/Config.antt =====
-- config.go: what a change of the configuration file sets. The package ini is a parameter.
pub mod Reports
pub mod Net
pub mod Watch
pub mod Geo
mod Tests
use srv_app.Base.{
  ℕ, ◌+◌, ◌-◌, ◌%◌, ◌^◌, Bool, true, false, List, [], ◌∷◌, ◌++◌, Text, codes, ℤ, pos, negsuc, ltb,
  length, ◌==◌, if◌then◌else◌,
}
use srv_app.Logs.{SrvLog, Store, set_logs_enabled, set_flush_interval_sec, debug, info}

-- The methods of `ini.IniCfg`, of its sections and of its values, on the configuration that there is.
pub record Ini (Section Val : Type 0) : Type 0 where
  pub get_section : Text → Section
  pub get_first_val : Section → Text → Val
  pub get_vals : Section → Text → List Val
  pub get_val_str : Val → ℕ → Text → Text
  pub get_val_int : Val → ℕ → ℤ → ℤ
  pub get_val_bool : Val → ℕ → Bool → Bool
  pub config_ver : Text

-- The conversion to `int32`: the low 32 bits, read with a sign.
abbrev pub low_bits : ℤ → ℕ
low_bits (pos n) = n % 2 ^ 32
low_bits (negsuc n) = 2 ^ 32 - 1 - n % 2 ^ 32

abbrev pub signed : ℕ → ℤ
signed v = if ltb v (2 ^ 31) then pos v else negsuc (2 ^ 32 - 1 - v)

unfoldable pub int32 : ℤ → ℤ
int32 n = signed (low_bits n)

-- The fields of `crash.EmailHandler` that are set.
pub record EmailHandler : Type 0 where
  pub srv_addr : Text
  pub srv_port : ℤ
  pub srv_user : Text
  pub srv_pass : Text
  pub from_addr : Text
  pub to_addrs : List Text

module _ {Section Val : Type 0} (ini : Ini Section Val) where
  abbrev pub first_str : Section → Text → Text → Text
  first_str sec key default = ini.get_val_str (ini.get_first_val sec key) 0 default

  abbrev pub first_int : Section → Text → ℤ → ℤ
  first_int sec key default = ini.get_val_int (ini.get_first_val sec key) 0 default

  abbrev pub first_bool : Section → Text → Bool → Bool
  first_bool sec key default = ini.get_val_bool (ini.get_first_val sec key) 0 default

  -- On the package's logger: the services, and the calls of `SetFlushIntervalSec` in their order.
  -- `default_interval` is `flog.DefaultFlushIntervalSec`.
  unfoldable pub cfg_logs : ℤ → SrvLog → Store → Store × List (ℕ × ℤ)
  unfolding int32
  cfg_logs default_interval srv_log s =
      let sec = ini.get_section (codes "app") in
      let s' = set_logs_enabled debug (first_bool sec (codes "DebugLogs") false) srv_log s in
      let of_debug = int32 (first_int sec (codes "DebugFlushIntervalSec") default_interval) in
      let of_info = int32 (first_int sec (codes "InfoFlushIntervalSec") default_interval) in
      (
        s',
        set_flush_interval_sec debug of_debug srv_log s'
            ++ set_flush_interval_sec info of_info srv_log s',
      )

  -- The texts of the values that are not empty.
  unfoldable pub non_empty : List Val → List Text
  non_empty [] = []
  non_empty (v ∷ vals) =
      let rest = non_empty vals in
      let s = ini.get_val_str v 0 [] in if length s == 0 then rest else s ∷ rest

  -- Whether crash reports are verbose, and the handler that sends them.
  unfoldable pub cfg_crash_reports : Bool × EmailHandler
  unfolding non_empty
  cfg_crash_reports =
      let sec = ini.get_section (codes "crash_reports") in
      (
        first_bool sec (codes "VerboseCrashReports") false,
        record {
          srv_addr = first_str sec (codes "SmtpSrvAddr") (codes "smtp");
          srv_port = first_int sec (codes "SmtpSrvPort") (pos 25);
          srv_user = first_str sec (codes "SmtpUser") [];
          srv_pass = first_str sec (codes "SmtpPass") [];
          from_addr = first_str sec (codes "SmtpFromAddr") [];
          to_addrs = non_empty (ini.get_vals sec (codes "SmtpToAddr"));
        },
      )
