-- ===== src/HttpSrv/Builtin/Reports/Tests.antt =====
-- The pages of a server, with encoders that know one field only.
use srv_app.Base.{◌≡◌, refl, false, List, [], ◌∷◌, Option, none, some, Text, codes, map}
use srv_app.Mux.{new_xmux}
use srv_app.Sorting.{sort_strings, insert_sorted, text_leb}
use srv_app.HttpSrv.{HttpSrv, new_http_srv, new_side}
use srv_app.HttpSrv.Accept.{Listener}
use srv_app.HttpSrv.Info.{get_net_info, subnet_info}
use srv_app.HttpSrv.Builtin.{on_app_info_uri}
use srv_app.HttpSrv.Builtin.Handlers.{wrote, call, write_json}
use srv_app.HttpSrv.Builtin.Reports.{Json, get_app_info_json, get_app_info, pages_of}

abbrev first_server : List Text → Option Text
first_server [] = none
first_server (a ∷ _) = some a

-- The text of an application is the first address of its private side.
abbrev json : Json Text Text
json = record {
  app_info = λ i. first_server i.net_info.private_info.servers;
  counters = λ c. some c;
  log_buffer = λ l. some l;
  requests = λ l. none;
}

abbrev listener : Text → Text × Listener
listener address = (address, record { addr = address; closing = false; config = none })

abbrev srv : HttpSrv
srv = record new_http_srv {
  private_side = record new_http_srv.private_side {
    listeners = map listener (codes "10.0.0.2:80" ∷ codes "10.0.0.1:80" ∷ []);
  };
}

-- The addresses are shown in their order.
app_info_test :
    call (pages_of json (codes "app") srv [] [] [] []) on_app_info_uri
    ≡ (wrote (codes "10.0.0.1:80"), [])
unfolding new_http_srv new_side new_xmux call write_json get_app_info_json get_app_info get_net_info
    subnet_info sort_strings insert_sorted text_leb
app_info_test = refl
