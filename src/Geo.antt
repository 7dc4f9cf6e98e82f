-- ===== src/Geo.antt =====
-- geoIPSec.go: the country of an address, looked up over http and kept for a day, and the check of
-- the country. The two maps, the permissions and the switches are one state.
pub mod Cache
pub mod Config
mod Tests
use srv_app.Base.{
  ℕ, ◌+◌, Bool, true, false, ◌&&◌, not, List, [], ◌∷◌, ◌++◌, Option, none, some, Text, codes,
  text_eq, length, ltb, ◌==◌, if◌then◌else◌,
}
use srv_app.Dict.{lookup, insert, delete}

-- `GeoIpData`. The coordinates, of the type float32, are the numbers of their bits, by which 0.0 is 0.
pub record GeoIpData : Type 0 where
  pub start_ip_num : ℕ
  pub end_ip_num : ℕ
  pub country_code : Text
  pub country : Text
  pub region : Text
  pub city : Text
  pub lat : ℕ
  pub long : ℕ
  pub zip_code : Text

pub record GeoState : Type 0 where
  pub sec_enabled : Bool
  pub service_uri : Text
  pub data_map : List (Text × GeoIpData)
  pub country_perms : List (Text × Bool)
  pub last_update : List (Text × ℕ)

-- `geoGetServiceUri` and `geoGetEnabled`
abbrev pub get_service_uri : GeoState → Text
get_service_uri s = s.service_uri

abbrev pub get_enabled : GeoState → Bool
get_enabled s = s.sec_enabled

abbrev pub rfc1918 : Text
rfc1918 = codes "RFC1918"

abbrev pub geo_data_local : GeoIpData
geo_data_local = record {
  start_ip_num = 0;
  end_ip_num = 0;
  country_code = codes "RF";
  country = rfc1918;
  region = rfc1918;
  city = rfc1918;
  lat = 0;
  long = 0;
  zip_code = rfc1918;
}

abbrev pub unknown : Text
unknown = codes "Unknown"

abbrev pub geo_data_unknown : GeoIpData
geo_data_unknown = record {
  start_ip_num = 0;
  end_ip_num = 0;
  country_code = codes "UU";
  country = unknown;
  region = unknown;
  city = unknown;
  lat = 0;
  long = 0;
  zip_code = unknown;
}

-- `time.Hour * 24`, in nanoseconds.
abbrev pub day : ℕ
day = 86_400_000_000_000

-- What a resolution meets outside: `http.Get` and the reading of its body, each none on an error;
-- the decoding of the body as JSON; the clock when the age of an entry is tested and when a new one
-- is stored.
pub record Outside : Type 0 where
  pub http_get : Text → Option (Option Text)
  pub unmarshal : Text → Option GeoIpData
  pub now : ℕ
  pub stored_at : ℕ

-- The test `ok && lastUpdate.Before(time.Now().Add(-(time.Hour * 24)))`.
abbrev pub is_stale : ℕ → Option ℕ → Bool
is_stale now none = false
is_stale now (some t) = ltb (t + day) now

-- `http.Get`, `ioutil.ReadAll` and `Unmarshal`: none at the first error.
unfoldable pub request : Outside → Text → Option GeoIpData
request o uri = elim (o.http_get uri) [
  | none ↦ none
  | some body ↦ elim body [ none ↦ none | some raw_data ↦ o.unmarshal raw_data ]
]

-- The part of `geoResolveAddr` behind the cache.
unfoldable pub refresh : Outside → GeoState → Text → GeoState × GeoIpData
refresh o s host = elim (request o (get_service_uri s ++ (b'/' ∷ host))) [
  | none ↦ (s, geo_data_unknown)
  | some new_geo ↦ (
    record s {
      data_map = insert host new_geo s.data_map;
      last_update = insert host o.stored_at s.last_update;
    },
    new_geo,
  )
]

-- `is_private` is `httpSrv.IsPrivateNetwork`.
unfoldable pub resolve_addr : (Text → Bool) → Outside → GeoState → Text → GeoState × GeoIpData
unfolding refresh
resolve_addr is_private o s host =
    let fetched = refresh o s host in
    let refetched = refresh o (record s { last_update = delete host s.last_update }) host in
    if is_private host then (s, geo_data_local) else elim (lookup host s.data_map) [
      | none ↦ fetched
      | some geo_data ↦
          if is_stale o.now (lookup host s.last_update) then refetched else (s, geo_data)
    ]

-- `geoCountryPerms[c]`, false where it is missing.
abbrev pub allowed : Option Bool → Bool
allowed none = false
allowed (some b) = b

unfoldable pub authorize_host : (Text → Bool) → Outside → GeoState → Text → GeoState × (Text × Bool)
unfolding resolve_addr
authorize_host is_private o s host =
    let (s', geo_data) = resolve_addr is_private o s host in
    if not (get_enabled s)
    then (s, ([], true))
    else (s', (geo_data.country, allowed (lookup geo_data.country s'.country_perms)))

-- One round of the loop of `geoOnConfigChange` over the values of `GeoIPAllowedCountry`.
unfoldable pub allow_country : List (Text × Bool) → Text → List (Text × Bool)
allow_country perms country = if length country == 0 then perms else insert country true perms

unfoldable pub allow_countries : List (Text × Bool) → List Text → List (Text × Bool)
unfolding allow_country
allow_countries perms [] = perms
allow_countries perms (country ∷ vals) = allow_countries (allow_country perms country) vals

-- `geoOnConfigChange`, on the values that it reads from the section `net`.
unfoldable pub on_config_change : GeoState → Bool → Text → List Text → GeoState
unfolding allow_countries
on_config_change s enabled uri vals = record s {
  country_perms = allow_countries [] vals;
  sec_enabled = enabled;
  service_uri = uri;
}
