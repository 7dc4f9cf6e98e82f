-- ===== src/Mux/Serve/Safety.antt =====
-- What a request can reach.
use srv_app.Base.{
  some-inj, ℕ, ◌≤◌, ◌≡◌, refl, ◌⊎◌, inl, inr, true, false, List, [], ◌∷◌, ◌++◌, Option, none, some,
  Memᴰ, Text, text_eq, text_eq_iff, length, arith, Option-cases, ◌+◌, ap, if◌then◌else◌, ◌&&◌, ◌||◌,
  not, is_none, leb,
}
use srv_app.Mux.{
  UriHandler, MuxEntry, XMux, Handler, func, Best, make_key, find, match, clean_path, path_match,
}
use srv_app.Mux.Match.{match_longest}
use srv_app.Mux.Serve.{
  Request, HttpLib, Guard, Effect, Counter, error, run, log_stats, count, connect, star, route,
  client_host, admit, dispatch, serve_http,
}

-- The handlers that an answer calls.
abbrev pub runs : List Effect → List Handler
runs [] = []
runs (run h ∷ es) = h ∷ runs es
runs (_ ∷ es) = runs es

-- The error statuses that an answer writes.
abbrev pub statuses : List Effect → List ℕ
statuses [] = []
statuses (error n ∷ es) = n ∷ statuses es
statuses (_ ∷ es) = statuses es

-- The counters that an answer adds to.
abbrev pub counted : List Effect → List Counter
counted [] = []
counted (count c ∷ es) = c ∷ counted es
counted (_ ∷ es) = counted es

-- The calls of `ipsLogStats`.
abbrev pub logged : List Effect → ℕ
logged [] = 0
logged (log_stats _ _ _ _ _ ∷ es) = logged es + 1
logged (_ ∷ es) = logged es

-- The conditions under which a function of the application may run.
pub record IsAdmitted {G : Type 0} (lib : HttpLib) (guard : Guard G) (mux : XMux) (g : G)
    (r : Request) (n : ℕ) : Type 0 where
  pub entry : Text × MuxEntry
  pub host : Text
  pub listed : Memᴰ entry mux.m
  pub calls : entry.1.h.handler ≡ func n
  pub matches :
      (path_match entry.0 (make_key r.method r.url_path) ≡ true)
      ⊎ (path_match entry.0 (r.host ++ make_key r.method r.url_path) ≡ true)
  pub client : client_host lib mux r ≡ some host
  pub level : entry.1.h.required_access ≤ guard.access_level host
  pub country : (guard.authorize g host).1.1 ≡ true
  pub canonical : (r.method ≡ connect) ⊎ (clean_path lib.path_clean r.url_path ≡ r.url_path)
  pub secure : (mux.tls_redirect ≡ false) ⊎ (r.tls ≡ true)

module _ (mux : XMux) where
  match_listed :
      (path : Text) (u : UriHandler)
      → (match mux path).h ≡ some u
      → (e : Text × MuxEntry) × (e.1.h ≡ u) × Memᴰ e mux.m × (path_match e.0 path ≡ true)
  match_listed path u h = elim (match_longest mux path) [
    | inl (nothing, _) ↦ absurd (cc)
    | inr (e, chosen, best) ↦
        (e, some-inj (cc (ap (λ (b : Best). b.h) chosen)), best.listed, best.matches)
  ]

  find_cases :
      (host method path : Text) (u : UriHandler)
      → (find mux host method path).h ≡ some u
      → ((match mux (make_key method path)).h ≡ some u)
        ⊎ ((match mux (host ++ make_key method path)).h ≡ some u)
  unfolding find
  find_cases host method path u h = ground arith

  find_listed :
      (host method path : Text) (u : UriHandler)
      → (find mux host method path).h ≡ some u
      → (e : Text × MuxEntry) × (e.1.h ≡ u)
        × Memᴰ e mux.m
        × ((path_match e.0 (make_key method path) ≡ true)
            ⊎ (path_match e.0 (host ++ make_key method path) ≡ true))
  find_listed host method path u h = elim (find_cases host method path u h) [
    | inl plain ↦
        let (e, same, listed, matches) = match_listed (make_key method path) u plain in
        (e, same, listed, inl matches)
    | inr hosted ↦
        let (e, same, listed, matches) = match_listed (host ++ make_key method path) u hosted in
        (e, same, listed, inr matches)
  ]

module _ {G : Type 0} (lib : HttpLib) (guard : Guard G) (mux : XMux) (g : G) (r : Request) where
  admit-runs :
      (host pattern : Text) (u : UriHandler) (h : Handler)
      → runs (admit lib guard g r host pattern u).1 ≡ h ∷ []
      → (u.handler ≡ h)
        × (u.required_access ≤ guard.access_level host)
        × ((guard.authorize g host).1.1 ≡ true)
  unfolding admit
  admit-runs host pattern u h e = ground arith

  route_func :
      (u : UriHandler) (n : ℕ)
      → (route lib mux r).0 ≡ some u
      → u.handler ≡ func n
      → ((find mux r.host r.method r.url_path).h ≡ some u)
        × ((r.method ≡ connect) ⊎ (clean_path lib.path_clean r.url_path ≡ r.url_path))
  unfolding route
  route_func u n e h = ground (
    arith,
    text_eq_iff r.method connect,
    text_eq_iff (clean_path lib.path_clean r.url_path) r.url_path,
  )

  dispatch-runs :
      (host : Text) (o : Option UriHandler × Text) (h : Handler)
      → runs (dispatch lib guard g r host o).1 ≡ h ∷ []
      → (u : UriHandler) × (o.0 ≡ some u)
        × (u.handler ≡ h)
        × (u.required_access ≤ guard.access_level host)
        × ((guard.authorize g host).1.1 ≡ true)
  unfolding dispatch
  dispatch-runs host (none, pattern) h e = cc
  dispatch-runs host (some u, pattern) h e =
      let (a, b, c) = admit-runs host pattern u h e in (u, refl, a, b, c)

  serve_runs :
      (h : Handler)
      → runs (serve_http lib guard mux g r).1 ≡ h ∷ []
      → (host : Text) × (client_host lib mux r ≡ some host)
        × (runs (dispatch lib guard g r host (route lib mux r)).1 ≡ h ∷ [])
        × ((mux.tls_redirect ≡ false) ⊎ (r.tls ≡ true))
  unfolding serve_http
  serve_runs h e = elim (Option-cases (client_host lib mux r)) [
    | inl unknown ↦ absurd (ground arith)
    | inr (host, known) ↦ (host, known, ground arith, ground arith)
  ]

  -- A function of the application runs only where all the checks passed: an entry of the map that
  -- matches the request's method and path holds it, the client's address is known, has at least
  -- the entry's access level and is allowed by the check of its country, the path is canonical
  -- unless the method is CONNECT, and the request came over TLS where the redirect to TLS is on.
  pub serve-IsAdmitted :
      (n : ℕ) → runs (serve_http lib guard mux g r).1 ≡ func n ∷ [] → IsAdmitted lib guard mux g r n
  serve-IsAdmitted n e =
      let (host, client, ran, secure) = serve_runs (func n) e in
      let (u, routed, calls, level, country) = dispatch-runs host (route lib mux r) (func n) ran in
      let (found, canonical) = route_func u n routed calls in
      let (entry, same, listed, matches) = find_listed mux r.host r.method r.url_path u found in
      record {
        entry = entry;
        host = host;
        listed = listed;
        calls = rw same calls;
        matches = matches;
        client = client;
        level = rw same level;
        country = country;
        canonical = canonical;
        secure = secure;
      }

  -- The request gets as far as the look-up of its handler.
  abbrev pub IsLookedUp : Text → Type 0
  IsLookedUp host =
      ((not r.tls && mux.tls_redirect) ≡ false)
      × (text_eq r.request_uri star ≡ false)
      × (client_host lib mux r ≡ some host)

  dispatch-some :
      (host : Text) (o : Option UriHandler × Text) (u : UriHandler)
      → o.0 ≡ some u
      → dispatch lib guard g r host o ≡ admit lib guard g r host o.1 u
  unfolding dispatch
  dispatch-some host (none, pattern) u h = cc
  dispatch-some host (some v, pattern) u h = cc

  pub admit-allowed :
      (host pattern : Text) (u : UriHandler)
      → let es = (admit lib guard g r host pattern u).1 in
        let allowed =
          leb u.required_access (guard.access_level host) && (guard.authorize g host).1.1 in
        (runs es ≡ (if allowed then u.handler ∷ [] else []))
        × (statuses es ≡ (if allowed then [] else 401 ∷ []))
  unfolding admit
  admit-allowed host pattern u = ground arith

  -- What a request with a known address and a handler gets: the handler runs exactly if the access
  -- level and the country pass, and 401 is answered and no handler runs otherwise.
  serve-allowed :
      (host : Text) (u : UriHandler)
      → IsLookedUp host
      → (route lib mux r).0 ≡ some u
      → let es = (serve_http lib guard mux g r).1 in
        let allowed =
          leb u.required_access (guard.access_level host) && (guard.authorize g host).1.1 in
        (runs es ≡ (if allowed then u.handler ∷ [] else []))
        × (statuses es ≡ (if allowed then [] else 401 ∷ []))
  unfolding serve_http
  serve-allowed host u (t, s, c) found =
      ground
        (arith, dispatch-some host (route lib mux r) u, admit-allowed host (route lib mux r).1 u)

  dispatch_accounts :
      (host : Text) (o : Option UriHandler × Text)
      → let es = (dispatch lib guard g r host o).1 in (length (counted es) ≡ 1) × (logged es ≡ 1)
  unfolding dispatch admit
  dispatch_accounts host (none, pattern) = ground arith
  dispatch_accounts host (some u, pattern) = ground arith

  -- Which counters an answer adds to: none where the request is redirected to TLS or is for `*`,
  -- else exactly one; and it is logged once exactly where moreover the client's address is known.
  serve_accounts :
      let es = (serve_http lib guard mux g r).1 in
      let early = (not r.tls && mux.tls_redirect) || text_eq r.request_uri star in
      (length (counted es) ≡ (if early then 0 else 1))
      × (logged es ≡ (if early || is_none (client_host lib mux r) then 0 else 1))
  unfolding serve_http
  serve_accounts = elim (Option-cases (client_host lib mux r)) [
    | inl unknown ↦ ground arith
    | inr (host, known) ↦ ground (arith, dispatch_accounts host (route lib mux r))
  ]
