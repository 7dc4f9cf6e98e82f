-- ===== src/Stats/Tests.antt =====
-- Three events in a ring of two elements.
use srv_app.Base.{ℕ, suc, map, ◌≡◌, refl, List, [], ◌∷◌, none, Text, codes}
use srv_app.Mux.Serve.{ReqStatus}
use srv_app.Geo.{GeoIpData, geo_data_local}
use srv_app.Stats.{RequestLog, new_ring, get_buffer, take_event, take_events}

abbrev event : Text → RequestLog
event host = record {
  host = host;
  path = [];
  pattern = [];
  status = ReqStatus.success;
  access_level = 0;
  timestamp = 0;
  geo_data = none;
}

-- The state counts the look-ups.
abbrev resolve : ℕ → Text → ℕ × GeoIpData
resolve n host = (suc n, geo_data_local)

abbrev events : List RequestLog
events = event (codes "a") ∷ event (codes "b") ∷ event (codes "c") ∷ []

ring_test :
    map (λ (e : RequestLog). e.host) (get_buffer (take_events resolve (0, new_ring 2) events).1)
    ≡ codes "b" ∷ codes "c" ∷ []
unfolding get_buffer take_events take_event
ring_test = refl
