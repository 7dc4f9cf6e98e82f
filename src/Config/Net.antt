-- ===== src/Config/Net.antt =====
-- config.go: `cfgNet`.
pub mod Effect
use srv_app.Base.{
  ℕ, Bool, true, false, ◌&&◌, ◌||◌, not, List, [], ◌∷◌, ◌++◌, map, Option, none, some, Text, codes,
  ℤ, pos, length, ◌==◌, if◌then◌else◌, Result, ok, panic, ◌>>=◌,
}
use srv_app.Dict.{insert}
use srv_app.Paths.{join}
use srv_app.Access.{AccessNet, parse_access_level, cfg_access}
use srv_app.HttpSrv.{HttpSrv}
use srv_app.HttpSrv.Accept.{TlsConfig}
use srv_app.HttpSrv.Configure.{Host, SideSettings, Settings, configure}
use srv_app.Life.{RunMode, run_svc}
use srv_app.Life.Startup.{RunCfg}
use srv_app.Config.{Ini, non_empty, first_str, first_int, first_bool}

abbrev pub is_run_svc : RunMode → Bool
is_run_svc run_svc = true
is_run_svc _ = false

-- The network state of the package: `httpSrv`, `netAccessList` and `netId`.
pub record NetState (Subnet : Type 0) : Type 0 where
  pub http_srv : HttpSrv
  pub access_list : List (AccessNet Subnet)
  pub net_id : Text

abbrev pub net_get_net_id : {Subnet : Type 0} → NetState Subnet → Text
net_get_net_id net = net.net_id

-- What `cfgNet` calls: `strings.ToLower`, `net.ParseCIDR`, and `tls.LoadX509KeyPair` on the paths of
-- a certificate and its key, none on an error.
pub record NetLib (Ip Subnet : Type 0) : Type 0 where
  pub to_lower : Text → Text
  pub parse_cidr : Text → Option (Ip × Subnet)
  pub load_key_pair : Text → Text → Option ℕ
  pub config_dir : Text

-- Neither of the guards returns.
abbrev pub is_on : RunCfg → RunMode → Bool
is_on run_cfg mode =
    not (not run_cfg.init_srv_cmd && not (is_run_svc mode))
    && not (not run_cfg.init_srv_svc && is_run_svc mode)

module _ {Section Val Ip Subnet : Type 0} (ini : Ini Section Val) (lib : NetLib Ip Subnet) where
  -- The key pair of a value of CertMap, if the three texts are there and it can be loaded.
  unfoldable pub key_pair : Val → Option (Text × ℕ)
  key_pair v =
      let domain = ini.get_val_str v 0 [] in
      let cert = ini.get_val_str v 1 [] in
      let key = ini.get_val_str v 2 [] in
      if length domain == 0 || (length cert == 0 || length key == 0)
      then none
      else elim (lib.load_key_pair (join lib.config_dir cert) (join lib.config_dir key)) [
        | none ↦ none
        | some kp ↦ some (domain, kp)
      ]

  abbrev pub put_pair : Option (Text × ℕ) → TlsConfig → TlsConfig
  put_pair none m = m
  put_pair (some (domain, kp)) m = insert domain kp m

  unfoldable pub cert_map : List Val → TlsConfig → TlsConfig
  unfolding key_pair
  cert_map [] m = m
  cert_map (v ∷ vals) m = cert_map vals (put_pair (key_pair v) m)

  -- The two texts of a value of AccessRights.
  abbrev pub rights_of : Val → Text × Text
  rights_of v = (ini.get_val_str v 0 [], ini.get_val_str v 1 (codes "none"))

  -- The settings of a side, by the keys of its values.
  abbrev pub side_settings : Section → Text → Text → Text → SideSettings
  side_settings sec port tls_port dir =
      let val = ini.get_first_val sec dir in
      record {
        port = first_int ini sec port (pos 0);
        tls_port = first_int ini sec tls_port (pos 0);
        static_dir = ini.get_val_str val 0 [];
        static_access_level =
            parse_access_level lib.to_lower (ini.get_val_str val 1 (codes "admin"));
      }

  -- The arguments of the call of `Configure`; `change_count` is 0 at the first configuration.
  unfoldable pub settings_of : ℕ → Settings
  unfolding cert_map
  settings_of change_count =
      let sec = ini.get_section (codes "net") in
      record {
        private_settings =
            side_settings sec (codes "PrivateHttpPort") (codes "PrivateTLSPort")
              (codes "PrivateStaticDir");
        public_settings =
            side_settings sec (codes "PublicHttpPort") (codes "PublicTLSPort")
              (codes "PublicStaticDir");
        ignore_addrs = non_empty ini (ini.get_vals sec (codes "BindIgnore"));
        tls_redirect = first_bool ini sec (codes "TLSRedirect") true;
        honor_x_forwarded_for = first_bool ini sec (codes "HonorXForwardedFor") false;
        cert_map = cert_map (ini.get_vals sec (codes "CertMap")) [];
        force_restart = change_count == 0;
      }

  abbrev pub access_rights : List (Text × Text)
  access_rights =
      map rights_of (ini.get_vals (ini.get_section (codes "net")) (codes "AccessRights"))

  module _ (host : Host Ip Subnet) where
    unfoldable pub cfg_net : RunCfg → RunMode → ℕ → NetState Subnet → Result (NetState Subnet)
    unfolding settings_of
    cfg_net run_cfg mode change_count net = if not (is_on run_cfg mode) then ok net else do
      srv ← configure host net.http_srv (settings_of change_count)
      ok (record {
        http_srv = srv;
        access_list = cfg_access host.contains lib.to_lower lib.parse_cidr access_rights;
        net_id = ini.config_ver;
      })
