-- ===== src/Geo/Tests.antt =====
-- Look-ups with a service that answers, and with one that does not.
use srv_app.Base.{ℕ, ◌+◌, ◌≡◌, refl, Bool, true, false, [], ◌∷◌, none, some, Text, codes, text_eq}
use srv_app.Dict.{lookup, insert}
use srv_app.Geo.{
  GeoIpData, GeoState, Outside, day, request, resolve_addr, authorize_host, on_config_change,
  geo_data_unknown,
}
use srv_app.Geo.Cache.{stale_kept}

abbrev france : GeoIpData
france = record {
  start_ip_num = 0;
  end_ip_num = 0;
  lat = 0x42435C29;
  long = 0x40159168;
  country_code = codes "FR";
  country = codes "France";
  region = [];
  city = [];
  zip_code = [];
}

abbrev answering : ℕ → Outside
answering t = record {
  http_get = λ uri. some (some uri);
  unmarshal = λ raw. some france;
  now = t;
  stored_at = t;
}

abbrev silent : ℕ → Outside
silent t = record { http_get = λ uri. none; unmarshal = λ raw. none; now = t; stored_at = t }

abbrev empty : GeoState
empty = record {
  sec_enabled = true;
  service_uri = codes "geo";
  data_map = [];
  country_perms = [];
  last_update = [];
}

abbrev public : Text → Bool
public host = false

abbrev host : Text
host = codes "8.8.8.8"

abbrev known : GeoState
known = record empty { data_map = (host, france) ∷ []; last_update = (host, 5) ∷ [] }

-- The entry of time 5 is looked up a day and a bit later.
stale_kept_example :
    let (s', d') = resolve_addr public (silent (day + 6)) known host in
    (d' ≡ geo_data_unknown) × (resolve_addr public (answering (day + day)) s' host ≡ (s', france))
unfolding lookup request text_eq
stale_kept_example =
    stale_kept public (silent (day + 6)) (answering (day + day)) known host france refl refl refl
      refl

france_passes :
    (authorize_host public
      (answering 5)
      (on_config_change empty true (codes "geo") (codes "France" ∷ []))
      host).1
    ≡ (codes "France", true)
unfolding authorize_host on_config_change request lookup insert text_eq
france_passes = refl
