-- ===== src/Stats/Requests.antt =====
-- netXMux.go with ipStats.go: the events that the requests of a multiplexer leave.
use srv_app.Base.{ℕ, ◌≡◌, List, [], ◌∷◌, Option, none, some, Text, ltb, if◌then◌else◌, Bool}
use srv_app.Access.{access_level_none}
use srv_app.Mux.{UriHandler, XMux, Handler}
use srv_app.Mux.Serve.{Request, HttpLib, Guard, Effect, Counter, ReqStatus, log_stats}
use srv_app.Mux.Serve.Safety.{runs, counted}
use srv_app.Stats.{RequestLog, new_request_log}

-- The events of the calls of `ipsLogStats` in an answer, at the time `now`.
unfoldable pub log_events : ℕ → List Effect → List RequestLog
unfolding new_request_log
log_events now [] = []
log_events now (log_stats host uri pattern access status ∷ es) =
    new_request_log host uri pattern access status now ∷ log_events now es
log_events now (_ ∷ es) = log_events now es

-- The counter that goes with a status.
abbrev pub counter_of : ReqStatus → Counter
counter_of ReqStatus.success = Counter.success
counter_of ReqStatus.not_found = Counter.not_found
counter_of ReqStatus.ip_deny = Counter.ip_deny
counter_of ReqStatus.geo_deny = Counter.geo_deny
counter_of ReqStatus.throttle_deny = Counter.throttle_deny

-- The status that the checks of a request give.
abbrev pub outcome : Option UriHandler → ℕ → Bool → ReqStatus
outcome none level allowed = ReqStatus.not_found
outcome (some h) level allowed =
    if ltb level h.required_access
    then ReqStatus.ip_deny
    else if allowed
    then ReqStatus.success
    else ReqStatus.geo_deny

-- The access level that is reported: it is not asked for where no handler is found.
abbrev pub level_reported : Option UriHandler → ℕ → ℕ
level_reported none level = access_level_none
level_reported (some h) level = level

-- The handler that runs with that status.
abbrev pub ran : Option UriHandler → ReqStatus → List Handler
ran (some h) ReqStatus.success = h.handler ∷ []
ran _ _ = []

module _ {G : Type 0} (lib : HttpLib) (guard : Guard G) (mux : XMux) (g : G) (r : Request) where
  -- What an answer tells of a request: its only event, the counter of its status, and what runs.
  abbrev IsEvent : Text → Option UriHandler × Text → ℕ → List Effect → Type 0
  IsEvent host o now es =
      let level = guard.access_level host in
      let status = outcome o.0 level (guard.authorize g host).1.1 in
      (log_events now es
        ≡ new_request_log host r.url_path o.1 (level_reported o.0 level) status now ∷ [])
      × (counted es ≡ counter_of status ∷ [])
      × (runs es ≡ ran o.0 status)
