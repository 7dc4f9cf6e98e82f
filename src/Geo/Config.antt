-- ===== src/Geo/Config.antt =====
-- The permissions that a configuration gives.
use srv_app.Base.{
  ◌≡◌, ◌≢◌, refl, Bool, true, List, [], ◌∷◌, some, Text, text_eq_refl, text_eq, text_eq_iff, arith,
  Bool-cases, if◌then◌else◌, inl, inr, ◌↔◌, ◌⊎◌, Memᴰ, length, sym, ◌==◌, ◌&&◌, not, ◌∙◌,
}
use srv_app.Dict.{lookup}
use srv_app.Dict.Laws.{lookup-insert}
use srv_app.Mux.Keys.{length-ne-zero, ne_of_length}
use srv_app.Geo.{
  GeoState, Outside, resolve_addr, authorize_host, allow_country, allow_countries, on_config_change,
}
use srv_app.Geo.Cache.{authorize_iff}

lookup-allow_country :
    (perms : List (Text × Bool)) (v c : Text)
    → lookup c (allow_country perms v)
      ≡ (if not (length v == 0) && text_eq v c then some true else lookup c perms)
unfolding allow_country
lookup-allow_country perms v c = ground (arith, lookup-insert v c true perms)

allow_country_self :
    (perms : List (Text × Bool)) (c : Text) → c ≢ [] → lookup c (allow_country perms c) ≡ some true
allow_country_self perms c ne =
    ground (arith, lookup-allow_country perms c c, length-ne-zero c ne, text_eq_refl c)

allow_country_cases :
    (perms : List (Text × Bool)) (v c : Text)
    → lookup c (allow_country perms v) ≡ some true
    → ((c ≢ []) × (c ≡ v)) ⊎ (lookup c perms ≡ some true)
allow_country_cases perms v c h = elim (Bool-cases (not (length v == 0) && text_eq v c)) [
  | inr other ↦ inr (rw (lookup-allow_country perms v c, other) at h)
  | inl new ↦
      let same : v ≡ c = ground (arith, text_eq_iff v c) in
      inl ((λ e. ne_of_length v (ground arith) (same ∙ e)), sym same)
]

allow_countries_sound :
    (vals : List Text) (perms : List (Text × Bool)) (c : Text)
    → lookup c (allow_countries perms vals) ≡ some true
    → ((c ≢ []) × Memᴰ c vals) ⊎ (lookup c perms ≡ some true)
unfolding allow_countries
allow_countries_sound [] perms c h = inr h
allow_countries_sound (v ∷ vals) perms c h =
    elim (allow_countries_sound vals (allow_country perms v) c h) [
      | inl (ne, later) ↦ inl (ne, Memᴰ.tail later)
      | inr here ↦ elim (allow_country_cases perms v c here) [
        | inl (ne, same) ↦ inl (ne, Memᴰ.head same)
        | inr before ↦ inr before
      ]
    ]

allow_countries_kept :
    (vals : List Text) (perms : List (Text × Bool)) (c : Text)
    → lookup c perms ≡ some true
    → lookup c (allow_countries perms vals) ≡ some true
unfolding allow_countries
allow_countries_kept [] perms c h = h
allow_countries_kept (v ∷ vals) perms c h =
    allow_countries_kept vals (allow_country perms v) c
      (ground (arith, lookup-allow_country perms v c))

allow_countries_listed :
    (vals : List Text) (perms : List (Text × Bool)) (c : Text)
    → c ≢ []
    → Memᴰ c vals
    → lookup c (allow_countries perms vals) ≡ some true
unfolding allow_countries
allow_countries_listed [] perms c ne m = elim m [ ]
allow_countries_listed (v ∷ vals) perms c ne (Memᴰ.head e) =
    allow_countries_kept vals (allow_country perms v) c (rw (← e) (allow_country_self perms c ne))
allow_countries_listed (v ∷ vals) perms c ne (Memᴰ.tail m) =
    allow_countries_listed vals (allow_country perms v) c ne m

-- After a change of the configuration that switches the check on, an address passes exactly if the
-- country that it resolves to is not empty and stands in the list of the configuration, whatever the
-- configuration before permitted.
pub authorize-on_config_change :
    (is_private : Text → Bool) (o : Outside) (s : GeoState) (uri : Text) (vals : List Text)
    (host : Text)
    → let s' = on_config_change s true uri vals in
      let country = (resolve_addr is_private o s' host).1.country in
      ((authorize_host is_private o s' host).1.1 ≡ true) ↔ ((country ≢ []) × Memᴰ country vals)
unfolding on_config_change
authorize-on_config_change is_private o s uri vals host = (to, from)
  where
    s' : GeoState
    s' = on_config_change s true uri vals

    country : Text
    country = (resolve_addr is_private o s' host).1.country

    perms : s'.country_perms ≡ allow_countries [] vals
    perms = unfold on_config_change in refl

    to : (authorize_host is_private o s' host).1.1 ≡ true → (country ≢ []) × Memᴰ country vals
    to h = elim ((authorize_iff is_private o s' host).0 h) [
      | inl off ↦ absurd (unfold on_config_change in cc)
      | inr found ↦ elim (allow_countries_sound vals [] country (rw perms at found)) [
        | inl listed ↦ listed
        | inr empty ↦ absurd (unfold lookup in cc)
      ]
    ]

    from : (country ≢ []) × Memᴰ country vals → (authorize_host is_private o s' host).1.1 ≡ true
    from (ne, listed) =
        (authorize_iff is_private o s' host).1
          (inr (rw perms (allow_countries_listed vals [] country ne listed)))
