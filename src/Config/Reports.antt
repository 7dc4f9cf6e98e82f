-- ===== src/Config/Reports.antt =====
-- What a change of the configuration does to the logs.
use srv_app.Base.{
  ℕ, ◌^◌, ◌<◌, ◌≡◌, refl, Bool, true, false, List, [], ◌∷◌, Option, none, some, Text, text_eq,
  codes, ℤ, pos, negsuc, ◌==◌, ==_refl, if◌then◌else◌, arith,
}
use srv_app.Dict.{lookup, insert}
use srv_app.Logs.{
  SrvLog, Store, Notifier, error, new_srv_log, add_log, debug, info, service_at, set_logs_enabled,
  set_flush_interval_sec, update_at, buffered_logs,
}
use srv_app.Config.{Ini, int32, low_bits, signed, cfg_logs, first_int, first_bool}

-- A number as a sum: at least -2 ^ 31 and below 2 ^ 31.
abbrev pub IsInt32 : ℤ → Type 0
IsInt32 (pos n) = n < 2 ^ 31
IsInt32 (negsuc n) = n < 2 ^ 31

low_bits-lt : (n : ℤ) → low_bits n < 2 ^ 32
low_bits-lt (pos n) = omega arith
low_bits-lt (negsuc n) = omega arith

signed-IsInt32 : (v : ℕ) → v < 2 ^ 32 → IsInt32 (signed v)
signed-IsInt32 v h = ground arith

int32_fits : (n : ℤ) → IsInt32 n → int32 n ≡ n
unfolding int32
int32_fits (pos n) h = ground arith
int32_fits (negsuc n) h = ground arith

-- The conversion gives a number of 32 bits, and the number itself if it is one.
int32_lem : (n : ℤ) → IsInt32 (int32 n) × (IsInt32 n → int32 n ≡ n)
unfolding int32
int32_lem n = (signed-IsInt32 (low_bits n) (low_bits-lt n), int32_fits n)

-- The interval of a log after the calls, in their order.
abbrev pub interval_of : ℕ → Option ℤ → List (ℕ × ℤ) → Option ℤ
interval_of a now [] = now
interval_of a now ((b, n) ∷ calls) = interval_of a (if b == a then some n else now) calls

-- Whether the log of a name is on.
abbrev pub enabled_of : SrvLog → Store → Text → Bool
enabled_of l s name = elim (lookup name l.subs) [ none ↦ false | some i ↦ (service_at s i).enabled ]

module _ {Section Val : Type 0} (ini : Ini Section Val) (default_interval : ℤ)
    (log_buffer file_log : Notifier) where
  -- The package's logger has one file log under all its names, so the interval that is set for the
  -- debug logs never counts: after a change of the configuration the file log has the interval of the
  -- info logs. The debug logs are on exactly if the configuration says so, and the others as before.
  cfg_logs_lem :
      log_buffer.is_buffered ≡ false
      → file_log.is_buffered ≡ true
      → let (l, s) = new_srv_log log_buffer file_log [] in
        let (s', calls) = cfg_logs ini default_interval l s in
        let sec = ini.get_section (codes "app") in
        (interval_of file_log.address none calls
          ≡ some (int32 (first_int ini sec (codes "InfoFlushIntervalSec") default_interval)))
        × (enabled_of l s' debug ≡ first_bool ini sec (codes "DebugLogs") false)
        × (enabled_of l s' error ≡ true)
        × (enabled_of l s' info ≡ true)
  unfolding new_srv_log add_log cfg_logs set_logs_enabled set_flush_interval_sec update_at
      buffered_logs lookup insert text_eq
  cfg_logs_lem plain buffered =
      rw (plain, buffered, ==_refl file_log.address) (refl, refl, refl, refl)
