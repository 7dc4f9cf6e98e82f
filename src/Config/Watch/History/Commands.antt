-- ===== src/Config/Watch/History/Commands.antt =====
-- Who can set off a command, whatever the history.
use srv_app.Base.{
  ℕ, ◌≤◌, ◌≡◌, ◌≢◌, refl, ◌⊎◌, inl, inr, sym, ap, ◌∙◌, Bool, true, false, ◌&&◌, ◌||◌, not, ◌==◌,
  leb, List, [], ◌∷◌, ◌++◌, Option, none, some, Memᴰ, Text, text_eq, Result, ok, panic, arith,
  Bool-cases,
}
use srv_app.Dict.{insert, lookup}
use srv_app.Mux.{
  XMux, MuxEntry, Handler, func, redirect, nil_handler, handle, add_entries, drop_last, is_explicit,
  helper, new_xmux, ends_slash, starts_slash, from_slash,
}
use srv_app.Mux.Serve.{HttpLib, Guard, Request, serve_http, client_host}
use srv_app.Mux.Serve.Safety.{runs, IsAdmitted, serve-IsAdmitted}
use srv_app.Access.{access_level_admin, parse_access_level, get_access_level, level_of}
use srv_app.Access.Bounds.{get_access_level-granted}
use srv_app.HttpSrv.{HttpSrv, new_http_srv, new_side, register_handler, register_on, register_side}
use srv_app.HttpSrv.Builtin.{
  net_init, register_all, on_crash_uri, on_shutdown_uri, on_update_config_uri, on_rotate_logs_uri,
}
use srv_app.HttpSrv.Builtin.Handlers.{Pages, Command, call, write_json, on_config, on_ping}
use srv_app.HttpSrv.Builtin.Handlers.Commands.{requested, runs-serve_http}
use srv_app.HttpSrv.Configure.Entries.{all_pass, all_pass-mem, AllPass}
use srv_app.Config.{Ini}
use srv_app.Config.Net.{access_rights}
use srv_app.Config.Watch.{Watched}
use srv_app.Config.Watch.History.{Env, History, in_force, list_of}
use srv_app.Config.Watch.History.Entries.{History-entries}

-- The function sets off a command.
abbrev is_command : ℕ → Bool
is_command n =
    (n == on_crash_uri || n == on_shutdown_uri)
    || (n == on_update_config_uri || n == on_rotate_logs_uri)

-- A command of the private side wants an administrator; the public side has none.
abbrev is_private_safe : Handler → ℕ → Bool
is_private_safe (func n) level = not (is_command n) || leb access_level_admin level
is_private_safe _ level = true

abbrev is_public_safe : Handler → Bool
is_public_safe (func n) = not (is_command n)
is_public_safe _ = true

abbrev private_test : MuxEntry → Bool
private_test v = is_private_safe v.h.handler v.h.required_access

abbrev public_test : MuxEntry → Bool
public_test v = is_public_safe v.h.handler

abbrev is_safe : Result HttpSrv → Bool
is_safe (ok srv) =
    all_pass private_test srv.private_side.mux.m && all_pass public_test srv.public_side.mux.m
is_safe (panic p) = false

net_init-is_safe : (path_string : Text → Text) → is_safe (net_init path_string new_http_srv) ≡ true
unfolding net_init register_all register_handler register_on register_side handle add_entries
    drop_last is_explicit helper insert lookup text_eq new_http_srv new_side new_xmux ends_slash
    starts_slash from_slash
net_init-is_safe path_string = refl

net_init-AllPass :
    (path_string : Text → Text) (srv : HttpSrv)
    → net_init path_string new_http_srv ≡ ok srv
    → AllPass private_test public_test srv
net_init-AllPass path_string srv made =
    let safe : is_safe (ok srv) ≡ true = ap is_safe (sym made) ∙ net_init-is_safe path_string in
    (ground (arith, safe), ground (arith, safe))

quiet_page : (o : Option Text) → (write_json o).1 ≡ []
unfolding write_json
quiet_page none = refl
quiet_page (some t) = refl

call-is_command : (pages : Pages) (n : ℕ) → is_command n ≡ false → (call pages n).1 ≡ []
unfolding call on_config on_ping
call-is_command pages n h = ground (
  arith,
  quiet_page pages.app_info,
  quiet_page pages.counters,
  quiet_page pages.logs,
  quiet_page pages.ips,
)

nil_cases : (l : List Command) → (l ≡ []) ⊎ (l ≢ [])
nil_cases [] = inl refl
nil_cases (c ∷ l) = inr (λ e. cc)

command_func :
    (pages : Pages) (h : Handler)
    → requested pages (h ∷ []) ≢ []
    → (n : ℕ) × (h ≡ func n) × (is_command n ≡ true)
command_func pages nil_handler ne = absurd (ne refl)
command_func pages (redirect url code) ne = absurd (ne refl)
command_func pages (func n) ne = elim (Bool-cases (is_command n)) [
  | inl command ↦ (n, refl, command)
  | inr other ↦ absurd (ne (ap (λ (l : List Command). l ++ []) (call-is_command pages n other)))
]

module _ {G : Type 0} (lib : HttpLib) (guard : Guard G) (mux : XMux) (g : G) (r : Request)
    (pages : Pages) where
  -- An answer that sets off a command runs one function, and its entry is admitted.
  served_command :
      requested pages (runs (serve_http lib guard mux g r).1) ≢ []
      → (n : ℕ) × (is_command n ≡ true) × IsAdmitted lib guard mux g r n
  served_command ne = elim (runs-serve_http lib guard mux g r) [
    | inl nothing ↦ absurd (ne (ap (requested pages) nothing))
    | inr (h, one) ↦
        let (n, same, command) =
          command_func pages h (λ none_then. ne (ap (requested pages) one ∙ none_then)) in
        (n, command, serve-IsAdmitted lib guard mux g r n (one ∙ ap (λ (k : Handler). k ∷ []) same))
  ]

  private_command :
      all_pass private_test mux.m ≡ true
      → requested pages (runs (serve_http lib guard mux g r).1) ≢ []
      → (host : Text) × (client_host lib mux r ≡ some host)
        × (access_level_admin ≤ guard.access_level host)
  private_command safe ne =
      let (n, command, a) = served_command ne in
      let test = all_pass-mem private_test mux.m a.entry safe a.listed in
      let guarded : not (is_command n) || leb access_level_admin a.entry.1.h.required_access
          ≡ true =
        rw (a.calls) at test in
      (a.host, a.client, ground (arith, guarded, command, a.level))

  public_command :
      all_pass public_test mux.m ≡ true
      → requested pages (runs (serve_http lib guard mux g r).1) ≡ []
  public_command safe = elim (nil_cases (requested pages (runs (serve_http lib guard mux g r).1))) [
    | inl nothing ↦ nothing
    | inr ne ↦
        let (n, command, a) = served_command ne in
        let test = all_pass-mem public_test mux.m a.entry safe a.listed in
        let other : not (is_command n) ≡ true = rw (a.calls) at test in
        absurd (ground (arith, other, command))
  ]

module _ {Ip Subnet : Type 0} (env : Env Ip Subnet) where
  -- The checks of `serve_http` with an access list.
  abbrev pub guard_of : {G : Type 0} → (G → Text → G × (Text × Bool)) → Watched Ip Subnet → Guard G
  guard_of authorize v = record {
    access_level = get_access_level env.host.contains env.host.parse_ip v.net.access_list;
    authorize = authorize;
  }

module _ {Section Val Ip Subnet : Type 0} (env : Env Ip Subnet) where
  -- A line of a configuration grants the level to the host.
  abbrev pub IsGranted : ℕ → Text → Ini Section Val → Type 0
  IsGranted level host ini =
      (line : Text × Text) × Memᴰ line (access_rights ini env.lib)
      × ((ip : Ip) × (net : Subnet) × (env.lib.parse_cidr line.0 ≡ some (ip, net))
          × (env.host.contains net (env.host.parse_ip host) ≡ true)
          × (level ≤ parse_access_level env.lib.to_lower line.1))

  list_of-IsGranted :
      (o : Option (Ini Section Val)) (host : Text)
      → access_level_admin
        ≤ get_access_level env.host.contains env.host.parse_ip (list_of env o) host
      → (ini : Ini Section Val) × (o ≡ some ini) × IsGranted access_level_admin host ini
  unfolding get_access_level level_of
  list_of-IsGranted none host h = absurd (omega (arith, h))
  list_of-IsGranted (some ini) host h =
      let (line, listed, (ip, net, parsed, inside, most)) =
        get_access_level-granted env.host.contains env.lib.to_lower env.lib.parse_cidr
          env.host.parse_ip (access_rights ini env.lib) host (omega (arith, h)) in
      (ini, refl, (line, listed, (ip, net, parsed, inside, omega (arith, h, most))))

  History-AllPass :
      (path_string : Text → Text) {w v : Watched Ip Subnet} (h : History Section Val env w v)
      → net_init path_string new_http_srv ≡ ok w.net.http_srv
      → w.net.access_list ≡ []
      → AllPass private_test public_test v.net.http_srv
        × (v.net.access_list ≡ list_of env (in_force env h))
  History-AllPass path_string h made empty =
      History-entries env private_test public_test
        (λ level. ((λ p. refl), (λ p q method url level code. refl)))
        (λ level. ((λ p. refl), (λ p q method url level code. refl))) h
        (net_init-AllPass path_string _ made) empty

  -- After the start-up of a new server and any history of configurations and address changes, a
  -- request to the private side sets off a crash, a shutdown, an update of the configuration or a
  -- rotation of the logs only if the client's address is known and the configuration in force has a
  -- line of AccessRights that grants the level of an administrator to a net with that address.
  pub history_commands :
      {G : Type 0} (path_string : Text → Text) {w v : Watched Ip Subnet}
      (h : History Section Val env w v) (lib : HttpLib) (authorize : G → Text → G × (Text × Bool))
      (pages : Pages) (g : G) (r : Request)
      → net_init path_string new_http_srv ≡ ok w.net.http_srv
      → w.net.access_list ≡ []
      → let mux = v.net.http_srv.private_side.mux in
        requested pages (runs (serve_http lib (guard_of env authorize v) mux g r).1) ≢ []
        → (host : Text) × (client_host lib mux r ≡ some host)
          × ((ini : Ini Section Val) × (in_force env h ≡ some ini)
              × IsGranted access_level_admin host ini)
  history_commands path_string {v = v} h lib authorize pages g r made empty ne =
      let ((safe, _), list) = History-AllPass path_string h made empty in
      let (host, client, level) =
        private_command lib (guard_of env authorize v) v.net.http_srv.private_side.mux g r pages
          safe ne in
      (host, client, list_of-IsGranted (in_force env h) host (rw list at level))

  -- And a request to the public side never does.
  pub history_public_quiet :
      {G : Type 0} (path_string : Text → Text) {w v : Watched Ip Subnet}
      (h : History Section Val env w v) (lib : HttpLib) (guard : Guard G) (pages : Pages) (g : G)
      (r : Request)
      → net_init path_string new_http_srv ≡ ok w.net.http_srv
      → w.net.access_list ≡ []
      → requested pages (runs (serve_http lib guard v.net.http_srv.public_side.mux g r).1) ≡ []
  history_public_quiet path_string {v = v} h lib guard pages g r made empty =
      let ((_, safe), _) = History-AllPass path_string h made empty in
      public_command lib guard v.net.http_srv.public_side.mux g r pages safe
