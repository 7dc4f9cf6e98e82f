-- ===== src/Stats.antt =====
-- ipStats.go: the last requests, in a ring buffer. The goroutine of `ipsInit` takes one event after
-- the other from `ipsEvents`; the buffer is written and read under `ipsLock`.
pub mod Window
pub mod Queue
pub mod Requests
pub mod Totals
mod Tests
use srv_app.Base.{
  ℕ, zero, suc, List, [], ◌∷◌, ◌++◌, Option, none, some, Text, replicate, Bool, true, false,
  if◌then◌else◌, ltb,
}
use srv_app.Mux.Serve.{ReqStatus}
use srv_app.Geo.{GeoIpData}

pub record RequestLog : Type 0 where
  pub host : Text
  pub path : Text
  pub pattern : Text
  pub status : ReqStatus
  pub access_level : ℕ
  pub timestamp : ℕ
  pub geo_data : Option GeoIpData

-- A `ring.Ring`: the values of its elements from the current one on, none where nothing was stored.
abbrev pub Ring : Type 0 → Type 0
Ring A = List (Option A)

-- `ring.New(n)`
abbrev pub new_ring : {A : Type 0} → ℕ → Ring A
new_ring n = replicate n none

-- `ring.New(1000)`
abbrev pub ips_capacity : ℕ
ips_capacity = 1000

module _ {A : Type 0} where
  -- `r.Value = x; r = r.Next()`
  unfoldable pub store : A → Ring A → Ring A
  store x [] = []
  store x (_ ∷ r) = r ++ some x ∷ []

  -- The function that `ipsGetBuffer` hands to `Do`, over all elements from the current one on.
  unfoldable pub collect : List A → Ring A → List A
  collect tmp [] = tmp
  collect tmp (none ∷ r) = collect tmp r
  collect tmp (some x ∷ r) = collect (tmp ++ x ∷ []) r

  unfoldable pub get_buffer : Ring A → List A
  unfolding collect
  get_buffer r = collect [] r

module _ {G : Type 0} (resolve : G → Text → G × GeoIpData) where
  -- The body of the loop of `ipsInit`, on one event: the country is looked up, then the event is
  -- stored.
  unfoldable pub take_event : G × Ring RequestLog → RequestLog → G × Ring RequestLog
  unfolding store
  take_event (g, ring) event =
      let (g', geo) = resolve g event.host in
      (g', store (record event { geo_data = some geo }) ring)

  unfoldable pub take_events : G × Ring RequestLog → List RequestLog → G × Ring RequestLog
  take_events s [] = s
  take_events s (e ∷ es) = take_events (take_event s e) es

-- `ipsLogStats`: what the goroutine that it starts does, by the case of its `select` that is chosen.
pub data Choice : Type 0 where
  shutting_down received timed_out : Choice

-- The record that is sent; it has no country yet.
unfoldable pub new_request_log : Text → Text → Text → ℕ → ReqStatus → ℕ → RequestLog
new_request_log host uri pattern access status now = record {
  host = host;
  path = uri;
  pattern = pattern;
  status = status;
  access_level = access;
  timestamp = now;
  geo_data = none;
}

unfoldable pub log_stats_send : Choice → RequestLog → List RequestLog
log_stats_send shutting_down event = []
log_stats_send received event = event ∷ []
log_stats_send timed_out event = []
