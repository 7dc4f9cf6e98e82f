-- ===== src/Geo/Cache.antt =====
-- The cache of resolved addresses.
use srv_app.Base.{
  ◌+◌, ◌≤◌, ◌≡◌, Bool, true, false, ◌∷◌, none, some, Text, text_eq_refl, ◌++◌, arith, ◌||◌, is_none,
  ◌↔◌, ◌⊎◌,
}
use srv_app.Dict.{lookup, delete}
use srv_app.Dict.Laws.{lookup-insert, lookup-delete}
use srv_app.Geo.{
  GeoIpData, GeoState, geo_data_unknown, day, Outside, is_stale, request, refresh, resolve_addr,
  authorize_host,
}

module _ (is_private : Text → Bool) where
  -- An entry that is not older than a day, or whose time is not known, is returned as it is: the
  -- service is not asked and the state stays.
  resolve-fresh :
      (o : Outside) (s : GeoState) (host : Text) (d : GeoIpData)
      → is_private host ≡ false
      → lookup host s.data_map ≡ some d
      → is_stale o.now (lookup host s.last_update) ≡ false
      → resolve_addr is_private o s host ≡ (s, d)
  unfolding resolve_addr
  resolve-fresh o s host d public found fresh = ground arith

  -- A look-up that the service answers stores the answer: every later look-up of the same address
  -- returns it and leaves the state, whatever the service would say, until it is older than a day.
  -- (The address is public, and has no entry or one that is older than a day.)
  resolve-resolve :
      (o o' : Outside) (s : GeoState) (host : Text) (d : GeoIpData)
      → is_private host ≡ false
      → is_none (lookup host s.data_map) || is_stale o.now (lookup host s.last_update) ≡ true
      → request o (s.service_uri ++ (b'/' ∷ host)) ≡ some d
      → o'.now ≤ o.stored_at + day
      → let (s', d') = resolve_addr is_private o s host in
        (d' ≡ d) × (resolve_addr is_private o' s' host ≡ (s', d))
  unfolding resolve_addr refresh
  resolve-resolve o o' s host d public missing got age = ground (
    arith,
    lookup-insert host host d s.data_map,
    lookup-insert host host o.stored_at s.last_update,
    lookup-insert host host o.stored_at (delete host s.last_update),
    text_eq_refl host,
  )

  -- An entry that is older than a day and cannot be refreshed once is kept for good: this look-up
  -- returns the unknown country, and all later ones return the old entry at any time and whatever
  -- the service answers, since the time of the entry was deleted and the entry was not.
  pub stale_kept :
      (o o' : Outside) (s : GeoState) (host : Text) (d : GeoIpData)
      → is_private host ≡ false
      → lookup host s.data_map ≡ some d
      → is_stale o.now (lookup host s.last_update) ≡ true
      → request o (s.service_uri ++ (b'/' ∷ host)) ≡ none
      → let (s', d') = resolve_addr is_private o s host in
        (d' ≡ geo_data_unknown) × (resolve_addr is_private o' s' host ≡ (s', d))
  unfolding resolve_addr refresh
  stale_kept o o' s host d public found old failed =
      ground (arith, lookup-delete host host s.last_update, text_eq_refl host)

  -- A look-up changes neither the permissions nor the switches.
  pub resolve-keeps :
      (o : Outside) (s : GeoState) (host : Text)
      → let s' = (resolve_addr is_private o s host).0 in
        (s'.country_perms ≡ s.country_perms)
        × (s'.sec_enabled ≡ s.sec_enabled)
        × (s'.service_uri ≡ s.service_uri)
  unfolding resolve_addr refresh
  resolve-keeps o s host = ground arith

  -- With the check switched off every address passes and nothing is looked up; with it on, an
  -- address passes exactly if the country that it resolves to is permitted.
  pub authorize_iff :
      (o : Outside) (s : GeoState) (host : Text)
      → ((authorize_host is_private o s host).1.1 ≡ true) ↔ (
          (s.sec_enabled ≡ false)
          ⊎ (lookup (resolve_addr is_private o s host).1.country s.country_perms ≡ some true))
  unfolding authorize_host
  authorize_iff o s host = ground (arith, resolve-keeps o s host)
