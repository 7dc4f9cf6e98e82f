-- ===== src/HttpSrv/Builtin/Handlers/Commands.antt =====
-- Who can set off a command.
use srv_app.Base.{
  ℕ, ◌≤◌, ◌≡◌, ◌≢◌, refl, ◌⊎◌, inl, inr, Bool, true, false, List, [], ◌∷◌, ◌++◌, Option, none, some,
  Text, ok, ap, ◌∙◌, arith, Bool-cases, text_eq, not, ◌&&◌, if◌then◌else◌,
}
use srv_app.Mux.{XMux, UriHandler, Handler, func, redirect, nil_handler}
use srv_app.Mux.Serve.{
  HttpLib, Guard, Request, Effect, Counter, error, count, serve_http, client_host, route, dispatch,
  star,
}
use srv_app.Mux.Serve.Safety.{runs, admit-allowed}
use srv_app.Access.{access_level_admin}
use srv_app.HttpSrv.{HttpSrv, new_http_srv}
use srv_app.HttpSrv.Builtin.{net_init, on_ping_uri}
use srv_app.HttpSrv.Builtin.Guarded.{net_init-private_admin, net_init-public_ping}
use srv_app.HttpSrv.Builtin.Handlers.{Command, Pages, call, on_ping}

-- The commands of a handler, and those of all that an answer runs.
abbrev pub commands_of : Pages → Handler → List Command
commands_of pages (func n) = (call pages n).1
commands_of pages _ = []

abbrev pub requested : Pages → List Handler → List Command
requested pages [] = []
requested pages (h ∷ hs) = commands_of pages h ++ requested pages hs

abbrev pub IsAtMostOne : List Handler → Type 0
IsAtMostOne hs = (hs ≡ []) ⊎ ((h : Handler) × (hs ≡ h ∷ []))

one_if :
    (hs : List Handler) (h : Handler) (b : Bool) → hs ≡ (if b then h ∷ [] else []) → IsAtMostOne hs
one_if hs h true e = inr (h, e)
one_if hs h false e = inl e

module _ {G : Type 0} (lib : HttpLib) (guard : Guard G) (mux : XMux) (g : G) (r : Request) where
  runs-dispatch :
      (host : Text) (found : Option UriHandler × Text)
      → IsAtMostOne (runs (dispatch lib guard g r host found).1)
  unfolding dispatch
  runs-dispatch host (none, pattern) = inl refl
  runs-dispatch host (some u, pattern) =
      one_if _ u.handler _ (admit-allowed lib guard mux g r host pattern u).0

  -- The last case of `serve_http`.
  abbrev for_client : Option Text → G × List Effect
  for_client client = elim client [
    | none ↦ (g, error 500 ∷ count Counter.parse_failed ∷ [])
    | some host ↦ dispatch lib guard g r host (route lib mux r)
  ]

  runs-for_client : (client : Option Text) → IsAtMostOne (runs (for_client client).1)
  runs-for_client none = inl refl
  runs-for_client (some host) = runs-dispatch host (route lib mux r)

  pub runs-serve_http : IsAtMostOne (runs (serve_http lib guard mux g r).1)
  unfolding serve_http
  runs-serve_http = elim (Bool-cases (not r.tls && mux.tls_redirect)) [
    | inl moved ↦ inl (ground arith)
    | inr stays ↦ elim (Bool-cases (text_eq r.request_uri star)) [
      | inl all ↦ inl (ground arith)
      | inr one ↦ rw (stays, one) (runs-for_client (client_host lib mux r))
    ]
  ]

module _ {G : Type 0} (path_string : Text → Text) (lib : HttpLib) (guard : Guard G) (srv : HttpSrv)
    (pages : Pages) (g : G) (r : Request) where
  quiet_ping : (n : ℕ) → n ≡ on_ping_uri → (call pages n).1 ++ [] ≡ []
  unfolding call on_ping
  quiet_ping n same = rw same refl

  private_of :
      (h : Handler)
      → net_init path_string new_http_srv ≡ ok srv
      → runs (serve_http lib guard srv.private_side.mux g r).1 ≡ h ∷ []
      → requested pages (h ∷ []) ≢ []
      → (host : Text) × (client_host lib srv.private_side.mux r ≡ some host)
        × (access_level_admin ≤ guard.access_level host)
  private_of (func n) made one some_command =
      net_init-private_admin path_string lib guard srv g r n made
        (λ same. some_command (quiet_ping n same)) one
  private_of nil_handler made one some_command = absurd (some_command refl)
  private_of (redirect url code) made one some_command = absurd (some_command refl)

  public_of :
      (h : Handler)
      → net_init path_string new_http_srv ≡ ok srv
      → runs (serve_http lib guard srv.public_side.mux g r).1 ≡ h ∷ []
      → requested pages (h ∷ []) ≡ []
  public_of (func n) made one =
      quiet_ping n (net_init-public_ping path_string lib guard srv g r n made one)
  public_of nil_handler made one = refl
  public_of (redirect url code) made one = refl

  -- After the start-up of a new server, a request to the private side sets off a crash, a shutdown, an
  -- update of the configuration or a rotation of the logs only if the client's address is known and
  -- has the level of an administrator.
  commands_private :
      net_init path_string new_http_srv ≡ ok srv
      → requested pages (runs (serve_http lib guard srv.private_side.mux g r).1) ≢ []
      → (host : Text) × (client_host lib srv.private_side.mux r ≡ some host)
        × (access_level_admin ≤ guard.access_level host)
  commands_private made some_command = elim (runs-serve_http lib guard srv.private_side.mux g r) [
    | inl nothing ↦ absurd (some_command (ap (requested pages) nothing))
    | inr (h, one) ↦
        private_of h made one (λ none_then. some_command (ap (requested pages) one ∙ none_then))
  ]

  -- After the start-up of a new server, no request to the public side sets off a command.
  commands_public :
      net_init path_string new_http_srv ≡ ok srv
      → requested pages (runs (serve_http lib guard srv.public_side.mux g r).1) ≡ []
  commands_public made = elim (runs-serve_http lib guard srv.public_side.mux g r) [
    | inl nothing ↦ ap (requested pages) nothing
    | inr (h, one) ↦ ap (requested pages) one ∙ public_of h made one
  ]
