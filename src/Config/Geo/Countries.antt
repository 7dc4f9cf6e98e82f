-- ===== src/Config/Geo/Countries.antt =====
-- The configuration, the check of the country and the multiplexer together.
use srv_app.Base.{ℕ, Bool, Text}
use srv_app.Mux.Serve.{Guard}
use srv_app.Geo.{GeoState, Outside, authorize_host}
use srv_app.Config.{Ini}

module _ {Section Val : Type 0} (ini : Ini Section Val) (is_private : Text → Bool) (o : Outside)
    (access_level : Text → ℕ) where
  -- The checks of a client with the state of the package's maps.
  abbrev pub geo_guard : Guard GeoState
  geo_guard = record { access_level = access_level; authorize = authorize_host is_private o }
