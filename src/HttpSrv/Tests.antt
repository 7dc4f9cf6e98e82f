-- ===== src/HttpSrv/Tests.antt =====
-- A small host with a private and a public address, and the theorems at it.
use srv_app.Base.{
  int_eq, is_positive, ◌≡◌, refl, true, false, List, [], ◌∷◌, none, some, Text, codes, text_eq, ok,
}
use srv_app.Dict.{lookup, insert, delete, IsMap}
use srv_app.Mux.{
  UriHandler, func, starts_slash, add_entries, new_xmux, handle, drop_last, is_explicit, ends_slash,
}
use srv_app.HttpSrv.{
  HttpSrv, new_side, new_http_srv, private_handler, register_handler, remove_handler, in_nets,
  is_ignore_addr, is_private_network,
}
use srv_app.HttpSrv.Accept.{Listener}
use srv_app.HttpSrv.Register.{AreInStep, new_http_srv-AreInStep, register_handler-AreInStep}
use srv_app.HttpSrv.Restart.{
  Wanted, Sockets, shut_down, rebind, restart_private_http, restart_public_http, start,
}
use srv_app.HttpSrv.Restart.Laws.{lookup-rebind}
use srv_app.HttpSrv.Configure.{configure, is_changed, has_new_dir}

program : Unit {0}
unfolding lookup insert delete text_eq int_eq is_positive new_http_srv new_side register_handler
    remove_handler restart_private_http restart_public_http rebind shut_down start configure
    has_new_dir is_changed handle add_entries drop_last is_explicit ends_slash starts_slash
    is_private_network in_nets is_ignore_addr
program = tt

abbrev as_is : Text → Text
as_is p = p

abbrev get : Text
get = codes "GET"

abbrev ping : Text
ping = codes "/ping"

abbrev ping_handler : UriHandler
ping_handler = record { method = get; handler = func 5; pattern = ping; required_access = 0 }

abbrev with_ping : HttpSrv
with_ping = record new_http_srv {
  private_side = record new_side {
    handlers = insert (codes "GET:/ping") ping_handler [];
    mux = add_entries as_is new_xmux ping_handler (codes "/pin");
  };
}

register_test : register_handler as_is new_http_srv get ping 5 private_handler 0 ≡ ok with_ping
unfolding program
register_test = refl

register_handler-AreInStep_example : AreInStep with_ping
register_handler-AreInStep_example =
    register_handler-AreInStep as_is new_http_srv with_ping get ping 5 private_handler 0
      new_http_srv-AreInStep register_test

abbrev all_bound : Sockets
all_bound = record { closes = λ k. true; binds_http = λ k. true; binds_tls = λ k. true }

abbrev listener : Text → Listener
listener a = record { addr = a; closing = false; config = none }

abbrev old : List (Text × Listener)
old = (codes "1:", listener (codes "1:")) ∷ (codes "2:", listener (codes "2:")) ∷ []

-- The plain listener of `1:` stays where TLS is wanted, and that of `2:` is closed.
abbrev wanted : Wanted
wanted = record { http = (codes "1::", codes "1::") ∷ []; tls = (codes "1:", codes "1:") ∷ [] }

rebind_test :
    rebind all_bound (some []) wanted old
    ≡ (codes "1:", listener (codes "1:")) ∷ (codes "1::", listener (codes "1::")) ∷ []
unfolding program
rebind_test = refl

old-IsMap : IsMap old
unfolding program
old-IsMap = (refl, (refl, tt))

lookup-rebind_example :
    lookup (codes "1:") (rebind all_bound (some []) wanted old) ≡ some (listener (codes "1:"))
unfolding program
lookup-rebind_example =
    lookup-rebind all_bound (some []) wanted old (codes "1:") old-IsMap ((refl, tt), (refl, tt))
      refl
