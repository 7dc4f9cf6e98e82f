-- ===== src/Stats/Totals.antt =====
-- netXMux.go with ipStats.go: the counters of a multiplexer and the events, over many requests.
use srv_app.Base.{
  ℕ, ◌+◌, ◌<◌, ◌≡◌, refl, inl, inr, List, [], ◌∷◌, ◌++◌, Option, none, some, Text, arith,
  Option-cases, length, length-append, ◌==◌, if◌then◌else◌,
}
use srv_app.Mux.{UriHandler, XMux}
use srv_app.Mux.Serve.{
  Request, HttpLib, Guard, Counter, ReqStatus, route, admit, dispatch, serve_http, client_host,
}
use srv_app.Mux.Serve.Safety.{counted}
use srv_app.Stats.{RequestLog, new_request_log}
use srv_app.Stats.Requests.{log_events, counter_of}

-- Counters are told apart by a number.
abbrev pub tag : Counter → ℕ
tag Counter.parse_failed = 0
tag Counter.not_found = 1
tag Counter.geo_deny = 2
tag Counter.ip_deny = 3
tag Counter.throttle_deny = 4
tag Counter.success = 5

-- What is added to a counter.
abbrev pub total : ℕ → List Counter → ℕ
total n [] = 0
total n (c ∷ cs) = let rest = total n cs in (if tag c == n then 1 else 0) + rest

-- The events with the status of a counter.
abbrev pub events_with : ℕ → List RequestLog → ℕ
events_with n [] = 0
events_with n (e ∷ es) =
    let rest = events_with n es in (if tag (counter_of e.status) == n then 1 else 0) + rest

total-append : (n : ℕ) (a b : List Counter) → total n (a ++ b) ≡ total n a + total n b
total-append n [] b = omega arith
total-append n (c ∷ a) b = omega (arith, total-append n a b)

events_with-append :
    (n : ℕ) (a b : List RequestLog) → events_with n (a ++ b) ≡ events_with n a + events_with n b
events_with-append n [] b = omega arith
events_with-append n (e ∷ a) b = omega (arith, events_with-append n a b)

module _ {G : Type 0} (lib : HttpLib) (guard : Guard G) (mux : XMux) where
  -- Requests with their times, one after the other: what is added to the counters, and the events.
  unfoldable pub serve_all : G → List (Request × ℕ) → G × (List Counter × List RequestLog)
  unfolding serve_http log_events
  serve_all g [] = (g, ([], []))
  serve_all g ((r, now) ∷ rs) =
      let (g', es) = serve_http lib guard mux g r in
      let (g'', (cs, events)) = serve_all g' rs in
      (g'', (counted es ++ cs, log_events now es ++ events))

  -- The counters and the events of an answer agree.
  abbrev Agree : List Counter → List RequestLog → Type 0
  Agree cs events =
      ((s : ReqStatus) → total (tag (counter_of s)) cs ≡ events_with (tag (counter_of s)) events)
      × (length cs ≡ total 0 cs + length events)

  dispatch-Agree :
      (g : G) (r : Request) (now : ℕ) (host : Text) (o : Option UriHandler × Text)
      → let es = (dispatch lib guard g r host o).1 in Agree (counted es) (log_events now es)
  unfolding dispatch admit log_events new_request_log
  dispatch-Agree g r now host (none, pattern) = ((λ s. ground arith), ground arith)
  dispatch-Agree g r now host (some u, pattern) = ((λ s. ground arith), ground arith)

  tag_pos : (s : ReqStatus) → 0 < tag (counter_of s)
  tag_pos ReqStatus.success = omega arith
  tag_pos ReqStatus.not_found = omega arith
  tag_pos ReqStatus.ip_deny = omega arith
  tag_pos ReqStatus.geo_deny = omega arith
  tag_pos ReqStatus.throttle_deny = omega arith

  serve_http-Agree :
      (g : G) (r : Request) (now : ℕ)
      → let es = (serve_http lib guard mux g r).1 in Agree (counted es) (log_events now es)
  unfolding serve_http log_events
  serve_http-Agree g r now = elim (Option-cases (client_host lib mux r)) [
    | inl unknown ↦ ((λ s. ground (arith, tag_pos s)), ground arith)
    | inr (host, known) ↦
        let (same, all) = dispatch-Agree g r now host (route lib mux r) in
        ((λ s. ground (arith, same s)), ground (arith, all))
  ]

  -- Whatever the requests: of each status there are as many events as were added to its counter, and
  -- every addition is that of an event or of an address that could not be read.
  pub serve_all_agree :
      (g : G) (rs : List (Request × ℕ))
      → let (cs, events) = (serve_all g rs).1 in
        ((s : ReqStatus) → total (tag (counter_of s)) cs ≡ events_with (tag (counter_of s)) events)
        × (length cs ≡ total 0 cs + length events)
  unfolding serve_all
  serve_all_agree g [] = ((λ s. refl), refl)
  serve_all_agree g ((r, now) ∷ rs) =
      let (g', es) = serve_http lib guard mux g r in
      let (one, all) = serve_http-Agree g r now in
      let (rest, all') = serve_all_agree g' rs in
      let (cs, events) = (serve_all g' rs).1 in
      (
        λ s. omega (
          arith,
          one s,
          rest s,
          total-append (tag (counter_of s)) (counted es) cs,
          events_with-append (tag (counter_of s)) (log_events now es) events,
        ),
        omega (
          arith,
          all,
          all',
          total-append 0 (counted es) cs,
          length-append (counted es) cs,
          length-append (log_events now es) events,
        ),
      )
