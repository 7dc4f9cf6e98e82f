-- ===== src/HttpSrv/Info/Tests.antt =====
-- A server that is read and shut down.
use srv_app.Base.{◌≡◌, refl, true, false, [], ◌∷◌, Text, List, codes, none}
use srv_app.Mux.{new_xmux}
use srv_app.Sorting.{sort_strings, insert_sorted, text_leb}
use srv_app.HttpSrv.{HttpSrv, new_http_srv, new_side}
use srv_app.HttpSrv.Accept.{Listener, close}
use srv_app.HttpSrv.Info.{
  get_net_info, get_srv_addrs, addrs_of, subnet_info, shutdown, close_listeners,
}

program : Unit {0}
unfolding get_net_info get_srv_addrs addrs_of subnet_info shutdown close_listeners close
    sort_strings insert_sorted text_leb new_http_srv new_side new_xmux
program = tt

abbrev listener : Text → Listener
listener a = record { addr = a; closing = false; config = none }

abbrev with_listeners : List (Text × Listener) → HttpSrv
with_listeners l = record new_http_srv {
  private_side = record new_http_srv.private_side { listeners = l };
}

abbrev first : Text × Listener
first = (codes "10.0.0.1:80", listener (codes "10.0.0.1:80"))

abbrev second : Text × Listener
second = (codes "10.0.0.1:443", record (listener (codes "10.0.0.1:443")) { closing = true })

abbrev srv : HttpSrv
srv = with_listeners (first ∷ second ∷ [])

sorted_test :
    (get_net_info srv).private_info.servers ≡ codes "10.0.0.1:443" ∷ codes "10.0.0.1:80" ∷ []
unfolding program
sorted_test = refl
