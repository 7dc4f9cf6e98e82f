-- ===== src/Mux/Serve.antt =====
-- netXMux.go: `XMux.Handler` and `XMux.ServeHTTP`. A request is answered by a list of effects in
-- the order in which the code makes them; log lines are left out.
pub mod Safety
use srv_app.Base.{
  ℕ, ◌≡◌, Bool, true, false, ◌&&◌, not, List, [], ◌∷◌, ◌++◌, Option, none, some, Text, codes,
  text_eq, length, ltb, ◌==◌, if◌then◌else◌,
}
use srv_app.Access.{access_level_none}
use srv_app.Mux.{UriHandler, XMux, Handler, redirect, find, clean_path}

pub record Request : Type 0 where
  pub method : Text
  pub host : Text
  pub url_path : Text
  pub tls : Bool
  pub request_uri : Text
  pub proto_at_least_1_1 : Bool
  pub x_forwarded_for : Text
  pub remote_addr : Text

-- What the code calls of the standard library: `path.Clean`; the text of the request's URL with the
-- given path; the host of `net.SplitHostPort`, or none on its error.
pub record HttpLib : Type 0 where
  pub path_clean : Text → Text
  pub url_string : Request → Text → Text
  pub split_host_port : Text → Option Text

-- The two checks of a client's address: `GetAccessLevel`, and `geoAuthorizeHost` on its state.
pub record Guard (G : Type 0) : Type 0 where
  pub access_level : Text → ℕ
  pub authorize : G → Text → G × (Text × Bool)

pub data ReqStatus : Type 0 where
  success not_found ip_deny geo_deny throttle_deny : ReqStatus

-- The counters of a multiplexer.
pub data Counter : Type 0 where
  parse_failed not_found geo_deny ip_deny throttle_deny success : Counter

-- `log_stats` is a call of `ipsLogStats`, `count` an addition of one to a counter, `run` a call of
-- the `ServeHTTP` of a registered or generated handler.
pub data Effect : Type 0 where
  moved : Text → Effect
  error : ℕ → Effect
  set_close : Effect
  run : Handler → Effect
  log_stats : Text → Text → Text → ℕ → ReqStatus → Effect
  count : Counter → Effect

abbrev pub connect : Text
connect = codes "CONNECT"

abbrev pub star : Text
star = codes "*"

module _ (lib : HttpLib) where
  -- `Handler`: the handler, if there is one, and the pattern.
  unfoldable pub route : XMux → Request → Option UriHandler × Text
  route mux r =
      let p = clean_path lib.path_clean r.url_path in
      let pattern = (find mux r.host r.method p).pattern in
      let direct = find mux r.host r.method r.url_path in
      if not (text_eq r.method connect) && not (text_eq p r.url_path)
      then (
        some (record {
          method = r.method;
          handler = redirect (lib.url_string r p) 301;
          pattern = pattern;
          required_access = access_level_none;
        }),
        pattern,
      )
      else (direct.h, direct.pattern)

  -- The address on which the checks are made: the header, where it is honored and not empty, or the
  -- remote address.
  unfoldable pub client_host : XMux → Request → Option Text
  client_host mux r =
      let host = if mux.honor_x_forwarded_for then r.x_forwarded_for else [] in
      if length host == 0 then lib.split_host_port r.remote_addr else some host

  module _ {G : Type 0} (guard : Guard G) where
    -- The part of `ServeHTTP` behind the look-up of the handler.
    unfoldable pub admit : G → Request → Text → Text → UriHandler → G × List Effect
    admit g r host pattern h =
        let level = guard.access_level host in
        let log = log_stats host r.url_path pattern level in
        let checked = guard.authorize g host in
        if ltb level h.required_access
        then (g, error 401 ∷ log ReqStatus.ip_deny ∷ count Counter.ip_deny ∷ [])
        else if not checked.1.1
        then (checked.0, error 401 ∷ log ReqStatus.geo_deny ∷ count Counter.geo_deny ∷ [])
        else (checked.0, run h.handler ∷ log ReqStatus.success ∷ count Counter.success ∷ [])

    -- The part behind the reading of the client's address.
    unfoldable pub dispatch : G → Request → Text → Option UriHandler × Text → G × List Effect
    dispatch g r host (none, pattern) = (
      g,
      error 404
          ∷ log_stats host r.url_path pattern access_level_none ReqStatus.not_found
          ∷ count Counter.not_found
          ∷ [],
    )
    dispatch g r host (some h, pattern) = admit g r host pattern h

    unfoldable pub serve_http : XMux → G → Request → G × List Effect
    unfolding dispatch admit
    serve_http mux g r =
        if not r.tls && mux.tls_redirect
        then (g, moved (codes "https://" ++ (r.host ++ lib.url_string r r.url_path)) ∷ [])
        else if text_eq r.request_uri star
        then (g, if r.proto_at_least_1_1 then set_close ∷ error 400 ∷ [] else error 400 ∷ [])
        else elim (client_host mux r) [
          | none ↦ (g, error 500 ∷ count Counter.parse_failed ∷ [])
          | some host ↦ dispatch g r host (route mux r)
        ]
