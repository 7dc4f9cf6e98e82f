-- ===== src/Config/Geo.antt =====
-- geoIPSec.go: `geoOnConfigChange` with the values that it reads from the configuration.
pub mod Countries
mod Tests
use srv_app.Base.{Bool, true, List, [], map, Text, codes}
use srv_app.Geo.{GeoState, on_config_change}
use srv_app.Config.{Ini, first_str, first_bool}

module _ {Section Val : Type 0} (ini : Ini Section Val) where
  abbrev pub geo_section : Section
  geo_section = ini.get_section (codes "net")

  abbrev pub is_geo_enabled : Bool
  is_geo_enabled = first_bool ini geo_section (codes "GeoIPSecurityEnabled") true

  abbrev pub allowed_countries : List Text
  allowed_countries =
      map (λ v. ini.get_val_str v 0 []) (ini.get_vals geo_section (codes "GeoIPAllowedCountry"))

  unfoldable pub geo_on_config_change : GeoState → GeoState
  unfolding on_config_change
  geo_on_config_change s =
      on_config_change s is_geo_enabled (first_str ini geo_section (codes "GeoIPServiceUri") [])
        allowed_countries
