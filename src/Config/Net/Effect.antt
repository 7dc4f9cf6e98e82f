-- ===== src/Config/Net/Effect.antt =====
-- What a change of the configuration does to the servers and to who may use them.
use srv_app.Base.{
  ℕ, ◌≤◌, ◌≡◌, refl, sym, ap, ◌∙◌, ◌⊎◌, inl, inr, Bool, true, false, not, List, [], ◌∷◌, Option,
  none, some, some-inj, Text, text_eq, text_eq_iff, ok, ◌>>=◌, >>=-eq-ok, arith, Memᴰ, Bool-cases,
  is_none, codes, pos, length, is_positive, ◌==◌, ◌&&◌,
}
use srv_app.Dict.{lookup, member}
use srv_app.Dict.Laws.{lookup-insert, lookup-insert_self}
use srv_app.Mux.{MuxEntry, XMux, func}
use srv_app.Mux.Serve.{HttpLib, Guard, Request, serve_http, client_host}
use srv_app.Mux.Serve.Safety.{runs, serve-IsAdmitted}
use srv_app.Access.{parse_access_level, cfg_access, get_access_level, level_of}
use srv_app.Access.Bounds.{level_of-cfg_access}
use srv_app.HttpSrv.Register.{ok-inj}
use srv_app.HttpSrv.Accept.{TlsConfig}
use srv_app.HttpSrv.Configure.{Host, configure}
use srv_app.HttpSrv.{Side}
use srv_app.Life.{RunMode}
use srv_app.Config.{Ini}
use srv_app.Life.Startup.{RunCfg}
use srv_app.Config.Net.{
  NetState, NetLib, is_on, key_pair, put_pair, cert_map, settings_of, access_rights, cfg_net,
}

module _ {Section Val Ip Subnet : Type 0} (ini : Ini Section Val) (lib : NetLib Ip Subnet) where
  abbrev Pair : Text → ℕ → Val → Type 0
  Pair d kp v = key_pair ini lib v ≡ some (d, kp)

  lookup-put_pair :
      (o : Option (Text × ℕ)) (d : Text) (kp : ℕ) (m : TlsConfig)
      → lookup d (put_pair ini lib o m) ≡ some kp
      → (o ≡ some (d, kp)) ⊎ (lookup d m ≡ some kp)
  lookup-put_pair none d kp m h = inr h
  lookup-put_pair (some (e, kq)) d kp m h = elim (Bool-cases (text_eq e d)) [
    | inl same ↦
        let found : some kq ≡ some kp = rw (lookup-insert e d kq m, same) at h in
        inl (λ i. some ((text_eq_iff e d).0 same i, some-inj found i))
    | inr other ↦ inr (rw (lookup-insert e d kq m, other) at h)
  ]

  cert_map_sound :
      (vals : List Val) (d : Text) (kp : ℕ) (m : TlsConfig)
      → lookup d (cert_map ini lib vals m) ≡ some kp
      → ((v : Val) × Memᴰ v vals × Pair d kp v) ⊎ (lookup d m ≡ some kp)
  unfolding cert_map
  cert_map_sound [] d kp m h = inr h
  cert_map_sound (v ∷ vals) d kp m h =
      elim (cert_map_sound vals d kp (put_pair ini lib (key_pair ini lib v) m) h) [
        | inl (u, l, pair) ↦ inl (u, Memᴰ.tail l, pair)
        | inr before ↦ elim (lookup-put_pair (key_pair ini lib v) d kp m before) [
          | inl here ↦ inl (v, Memᴰ.head refl, here)
          | inr older ↦ inr older
        ]
      ]

  member-put_pair :
      (o : Option (Text × ℕ)) (d : Text) (m : TlsConfig)
      → member d m ≡ true
      → member d (put_pair ini lib o m) ≡ true
  member-put_pair none d m h = h
  member-put_pair (some (e, kp)) d m h = ground (arith, lookup-insert e d kp m)

  cert_map_keeps :
      (vals : List Val) (d : Text) (m : TlsConfig)
      → member d m ≡ true
      → member d (cert_map ini lib vals m) ≡ true
  unfolding cert_map
  cert_map_keeps [] d m h = h
  cert_map_keeps (v ∷ vals) d m h =
      cert_map_keeps vals d (put_pair ini lib (key_pair ini lib v) m)
        (member-put_pair (key_pair ini lib v) d m h)

  member-put_self :
      (o : Option (Text × ℕ)) (d : Text) (kp : ℕ) (m : TlsConfig)
      → o ≡ some (d, kp)
      → member d (put_pair ini lib o m) ≡ true
  member-put_self o d kp m h =
      rw h (ap (λ (w : Option ℕ). not (is_none w)) (lookup-insert_self d kp m))

  cert_map_complete :
      (vals : List Val) (v : Val) (d : Text) (kp : ℕ) (m : TlsConfig)
      → Memᴰ v vals
      → Pair d kp v
      → member d (cert_map ini lib vals m) ≡ true
  unfolding cert_map
  cert_map_complete [] v d kp m l h = elim l [ ]
  cert_map_complete (u ∷ vals) v d kp m (Memᴰ.head same) h =
      cert_map_keeps vals d (put_pair ini lib (key_pair ini lib u) m)
        (member-put_self (key_pair ini lib u) d kp m (ap (key_pair ini lib) (sym same) ∙ h))
  cert_map_complete (u ∷ vals) v d kp m (Memᴰ.tail l) h =
      cert_map_complete vals v d kp (put_pair ini lib (key_pair ini lib u) m) l h

  -- A domain has a key pair exactly if a value of CertMap names it, a certificate and a key, and the
  -- pair can be loaded; and then it is the pair of such a value.
  cert_map_lem :
      (vals : List Val) (d : Text)
      → ((kp : ℕ)
          → lookup d (cert_map ini lib vals []) ≡ some kp
          → (v : Val) × Memᴰ v vals × (key_pair ini lib v ≡ some (d, kp)))
        × ((v : Val) (kp : ℕ)
            → Memᴰ v vals
            → key_pair ini lib v ≡ some (d, kp)
            → member d (cert_map ini lib vals []) ≡ true)
  cert_map_lem vals d = (sound, λ v kp l h. cert_map_complete vals v d kp [] l h)
    where
      sound :
          (kp : ℕ)
          → lookup d (cert_map ini lib vals []) ≡ some kp
          → (v : Val) × Memᴰ v vals × (key_pair ini lib v ≡ some (d, kp))
      sound kp h = elim (cert_map_sound vals d kp [] h) [
        | inl found ↦ found
        | inr nothing ↦ absurd (unfold lookup in cc nothing)
      ]

  -- What a side has of the section `net`, by the names of its keys.
  abbrev pub FollowsFile : Text → Text → Text → Side → Type 0
  FollowsFile http_key tls_key dir_key side =
      let sec = ini.get_section (codes "net") in
      let tls_port = ini.get_val_int (ini.get_first_val sec tls_key) 0 (pos 0) in
      let certs = cert_map ini lib (ini.get_vals sec (codes "CertMap")) [] in
      let is_redirected = ini.get_val_bool (ini.get_first_val sec (codes "TLSRedirect")) 0 true in
      (side.port ≡ ini.get_val_int (ini.get_first_val sec http_key) 0 (pos 0))
      × (side.tls_port ≡ tls_port)
      × (side.static_dir ≡ ini.get_val_str (ini.get_first_val sec dir_key) 0 [])
      × (side.mux.tls_redirect
          ≡ (not (length certs == 0) && (is_positive tls_port && is_redirected)))
      × (side.mux.honor_x_forwarded_for
          ≡ ini.get_val_bool (ini.get_first_val sec (codes "HonorXForwardedFor")) 0 false)

  module _ (host : Host Ip Subnet) where
    -- The steps of a configuration that is not returned from at once.
    pub cfg_net_lem :
        (run_cfg : RunCfg) (mode : RunMode) (n : ℕ) (net net' : NetState Subnet)
        → is_on run_cfg mode ≡ true
        → cfg_net ini lib host run_cfg mode n net ≡ ok net'
        → (configure host net.http_srv (settings_of ini lib n) ≡ ok net'.http_srv)
          × (net'.access_list
              ≡ cfg_access host.contains lib.to_lower lib.parse_cidr (access_rights ini lib))
          × (net'.net_id ≡ ini.config_ver)
    unfolding cfg_net
    cfg_net_lem run_cfg mode n net net' on e =
        let e' : (configure host net.http_srv (settings_of ini lib n) >>= λ srv. ok (record {
          http_srv = srv;
          access_list =
              cfg_access host.contains lib.to_lower lib.parse_cidr (access_rights ini lib);
          net_id = ini.config_ver;
        }))
            ≡ ok net' =
          rw on at e in
        let (srv, done, same) =
          >>=-eq-ok (configure host net.http_srv (settings_of ini lib n)) _ e' in
        let s = ok-inj same in
        (
          done ∙ ap (λ (w : NetState Subnet). ok w.http_srv) s,
          sym (ap (λ (w : NetState Subnet). w.access_list) s),
          sym (ap (λ (w : NetState Subnet). w.net_id) s),
        )

    pub cfg_net_off :
        (run_cfg : RunCfg) (mode : RunMode) (n : ℕ) (net : NetState Subnet)
        → is_on run_cfg mode ≡ false
        → cfg_net ini lib host run_cfg mode n net ≡ ok net
    unfolding cfg_net
    cfg_net_off run_cfg mode n net off = rw off refl

    -- The level of a client that a line of AccessRights names bounds what it can run, on every
    -- multiplexer: after the configuration of the servers, a function that runs on a request of that
    -- client stands under an entry that wants no more than the level of the line, whatever the other
    -- lines say, if the net of the line holds the address that `ParseCIDR` and `ParseIP` read.
    pub cfg_net-serve :
        {G : Type 0} (http_lib : HttpLib) (authorize : G → Text → G × (Text × Bool))
        (run_cfg : RunCfg) (mode : RunMode) (n : ℕ) (net net' : NetState Subnet) (mux : XMux)
        (g : G) (r : Request) (f : ℕ) (cidr lvl client : Text) (subnet : Subnet)
        → is_on run_cfg mode ≡ true
        → cfg_net ini lib host run_cfg mode n net ≡ ok net'
        → Memᴰ (cidr, lvl) (access_rights ini lib)
        → lib.parse_cidr cidr ≡ some (host.parse_ip client, subnet)
        → host.contains subnet (host.parse_ip client) ≡ true
        → client_host http_lib mux r ≡ some client
        → let guard : Guard G = record {
          access_level = get_access_level host.contains host.parse_ip net'.access_list;
          authorize = authorize;
        } in
          runs (serve_http http_lib guard mux g r).1 ≡ func f ∷ []
          → (e : Text × MuxEntry) × Memᴰ e mux.m
            × (e.1.h.handler ≡ func f)
            × (e.1.h.required_access ≤ parse_access_level lib.to_lower lvl)
    unfolding get_access_level
    cfg_net-serve http_lib authorize run_cfg mode n net net' mux g r f cidr lvl client subnet on
          made line parsed inside known ran =
        let guard : Guard _ = record {
          access_level = get_access_level host.contains host.parse_ip net'.access_list;
          authorize = authorize;
        } in
        let a = serve-IsAdmitted http_lib guard mux g r f ran in
        let (_, list, _) = cfg_net_lem run_cfg mode n net net' on made in
        let same : a.host ≡ client = some-inj (sym a.client ∙ known) in
        let bound =
          level_of-cfg_access host.contains lib.to_lower lib.parse_cidr (access_rights ini lib) cidr
            lvl (host.parse_ip client) subnet line parsed inside in
        let level : level_of host.contains net'.access_list (host.parse_ip a.host)
            ≤ parse_access_level lib.to_lower lvl =
          rw (same, list) bound in
        (a.entry, a.listed, a.calls, omega (arith, a.level, level))
