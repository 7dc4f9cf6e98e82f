-- ===== src/HttpSrv/Builtin/Guarded.antt =====
-- What the built-in handlers are guarded by.
use srv_app.Base.{
  ℕ, ◌≤◌, ◌≡◌, ◌≢◌, refl, Bool, true, false, ◌&&◌, ◌||◌, ◌==◌, List, [], ◌∷◌, some, Memᴰ, Text,
  text_eq, >>=-eq-ok, ==_iff, Result, ok, panic, arith, leb,
}
use srv_app.Dict.{insert, lookup}
use srv_app.Mux.{
  Handler, func, MuxEntry, handle, add_entries, drop_last, is_explicit, helper, new_xmux,
  ends_slash, starts_slash, from_slash,
}
use srv_app.Mux.Serve.{HttpLib, Guard, Request, serve_http, client_host}
use srv_app.Mux.Serve.Safety.{runs, serve-IsAdmitted}
use srv_app.Access.{access_level_admin}
use srv_app.HttpSrv.{HttpSrv, new_http_srv, new_side, register_handler, register_on, register_side}
use srv_app.HttpSrv.Register.{ok-inj, AreInStep, register_handler-AreInStep, new_http_srv-AreInStep}
use srv_app.HttpSrv.Builtin.{net_init, register_all, on_ping_uri, Registration, registrations}

-- An entry of the private side runs the ping, or wants an administrator.
abbrev is_guarded : Handler → ℕ → Bool
is_guarded (func n) level = (n == on_ping_uri) || leb access_level_admin level
is_guarded _ level = true

abbrev is_open : Handler → Bool
is_open (func n) = n == on_ping_uri
is_open _ = true

abbrev all_guarded : List (Text × MuxEntry) → Bool
all_guarded [] = true
all_guarded ((k, v) ∷ m) = is_guarded v.h.handler v.h.required_access && all_guarded m

abbrev all_open : List (Text × MuxEntry) → Bool
all_open [] = true
all_open ((k, v) ∷ m) = is_open v.h.handler && all_open m

abbrev is_safe : Result HttpSrv → Bool
is_safe (ok srv) = all_guarded srv.private_side.mux.m && all_open srv.public_side.mux.m
is_safe (panic p) = false

net_init-is_safe : (path_string : Text → Text) → is_safe (net_init path_string new_http_srv) ≡ true
unfolding net_init register_all register_handler register_on register_side handle add_entries
    drop_last is_explicit helper insert lookup text_eq new_http_srv new_side new_xmux ends_slash
    starts_slash from_slash
net_init-is_safe path_string = refl

guarded_of_mem :
    (m : List (Text × MuxEntry)) (e : Text × MuxEntry)
    → all_guarded m ≡ true
    → Memᴰ e m
    → is_guarded e.1.h.handler e.1.h.required_access ≡ true
guarded_of_mem [] e h l = elim l [ ]
guarded_of_mem (x ∷ m) e h (Memᴰ.head same) = rw same (ground arith)
guarded_of_mem (x ∷ m) e h (Memᴰ.tail l) = guarded_of_mem m e (ground arith) l

open_of_mem :
    (m : List (Text × MuxEntry)) (e : Text × MuxEntry)
    → all_open m ≡ true
    → Memᴰ e m
    → is_open e.1.h.handler ≡ true
open_of_mem [] e h l = elim l [ ]
open_of_mem (x ∷ m) e h (Memᴰ.head same) = rw same (ground arith)
open_of_mem (x ∷ m) e h (Memᴰ.tail l) = open_of_mem m e (ground arith) l

safe_of_ok :
    (r : Result HttpSrv) (srv : HttpSrv)
    → is_safe r ≡ true
    → r ≡ ok srv
    → (all_guarded srv.private_side.mux.m ≡ true) × (all_open srv.public_side.mux.m ≡ true)
safe_of_ok (panic p) srv h e = cc
safe_of_ok (ok s) srv h e = rw (← ok-inj e) (ground arith)

level_of_guarded :
    (h : Handler) (n level : ℕ)
    → h ≡ func n
    → n ≢ on_ping_uri
    → is_guarded h level ≡ true
    → access_level_admin ≤ level
level_of_guarded h n level calls other guarded =
    let e : (n == on_ping_uri) || leb access_level_admin level ≡ true = rw calls at guarded in
    ground (arith, e, ==_iff n on_ping_uri)

register_all-AreInStep :
    (path_string : Text → Text) (cs : List Registration) (srv srv' : HttpSrv)
    → AreInStep srv
    → register_all path_string srv cs ≡ ok srv'
    → AreInStep srv'
unfolding register_all
register_all-AreInStep path_string [] srv srv' h e = rw (← ok-inj e) h
register_all-AreInStep path_string (c ∷ cs) srv srv' h e =
    let (next, made, rest) =
      >>=-eq-ok
        (register_handler path_string srv c.method c.path c.function c.handler_type c.access_level)
        _ e in
    register_all-AreInStep path_string cs next srv'
      (register_handler-AreInStep path_string srv next c.method c.path c.function c.handler_type
        c.access_level h made)
      rest

Result-cases : (r : Result HttpSrv) → is_safe r ≡ true → (srv : HttpSrv) × (r ≡ ok srv)
Result-cases (ok srv) h = (srv, refl)
Result-cases (panic p) h = cc

-- The start-up on a new server panics nowhere, and leaves tables and multiplexers in step.
pub net_init-AreInStep :
    (path_string : Text → Text)
    → (srv : HttpSrv) × (net_init path_string new_http_srv ≡ ok srv) × AreInStep srv
unfolding net_init
net_init-AreInStep path_string =
    let (srv, made) =
      Result-cases (net_init path_string new_http_srv) (net_init-is_safe path_string) in
    (
      srv,
      made,
      register_all-AreInStep path_string registrations new_http_srv srv new_http_srv-AreInStep made,
    )

module _ {G : Type 0} (path_string : Text → Text) (lib : HttpLib) (guard : Guard G) (srv : HttpSrv)
    (g : G) (r : Request) (n : ℕ) where
  -- After the start-up of a new server, a request to the private side runs a function other than the
  -- ping only if the client's address is known and has the level of an administrator.
  pub net_init-private_admin :
      net_init path_string new_http_srv ≡ ok srv
      → n ≢ on_ping_uri
      → runs (serve_http lib guard srv.private_side.mux g r).1 ≡ func n ∷ []
      → (host : Text) × (client_host lib srv.private_side.mux r ≡ some host)
        × (access_level_admin ≤ guard.access_level host)
  net_init-private_admin made other ran =
      let a = serve-IsAdmitted lib guard srv.private_side.mux g r n ran in
      let (guarded, _) = safe_of_ok _ srv (net_init-is_safe path_string) made in
      let u = a.entry.1.h in
      let wanted =
        level_of_guarded u.handler n u.required_access a.calls other
          (guarded_of_mem srv.private_side.mux.m a.entry guarded a.listed) in
      (a.host, a.client, omega (arith, wanted, a.level))

  -- After the start-up of a new server, a request to the public side runs no function but the ping.
  pub net_init-public_ping :
      net_init path_string new_http_srv ≡ ok srv
      → runs (serve_http lib guard srv.public_side.mux g r).1 ≡ func n ∷ []
      → n ≡ on_ping_uri
  net_init-public_ping made ran =
      let a = serve-IsAdmitted lib guard srv.public_side.mux g r n ran in
      let (_, opened) = safe_of_ok _ srv (net_init-is_safe path_string) made in
      let ping = open_of_mem srv.public_side.mux.m a.entry opened a.listed in
      (==_iff n on_ping_uri).0 (rw a.calls at ping)
