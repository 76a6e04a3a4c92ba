-- ===== src/Network.antt =====
-- crates/engine/src/common/transport.rs: the network proxy of the process. The parser of URLs and the
-- builder of clients are those of the crate reqwest, a parameter.
pub mod Configured
use linguaray.Base.{
  Bool, true, false, not, ◌&&◌, ◌||◌, Option, none, some, codes, if◌then◌else◌, is_empty, Text,
  same, trim, ℕ, [],
}
use linguaray.Errors.{
  Result, ok, err, proxy_url_required, invalid_proxy_url, proxy_scheme, proxy_host,
  proxy_credentials, invalid_proxy, client_failed,
}

pub data NetworkProxyMode : Type 0 where
  system direct custom : NetworkProxyMode

pub record NetworkProxyConfig : Type 0 where
  pub mode : NetworkProxyMode
  pub url : Text
  pub bypass : Text

-- `NetworkProxyConfig::default()`, before a proxy has been configured
abbrev pub default_proxy : NetworkProxyConfig
default_proxy = record { mode = system; url = []; bypass = [] }

-- What the checks read of a `reqwest::Url`.
pub record Url : Type 0 where
  pub scheme : Text
  pub host_str : Option Text
  pub port_or_known_default : Option ℕ
  pub username : Text
  pub password : Option Text

pub record Reqwest : Type 0 where
  pub parse : Text → Option Url
  -- whether `Proxy::all` takes the URL
  pub proxy_all : Url → Bool
  -- whether `build` succeeds for the proxy
  pub build : NetworkProxyConfig → Bool

abbrev pub is_none {ℓ} : {A : Type ℓ} → Option A → Bool
is_none none = true
is_none (some x) = false

module _ (r : Reqwest) where
  unfoldable pub build_client : NetworkProxyConfig → Result (Unit {0})
  build_client c = if r.build c then ok tt else err client_failed

  unfoldable pub check_url : NetworkProxyConfig → Url → Result (Unit {0})
  unfolding build_client
  check_url c u =
      if not (same u.scheme (codes "http")) && not (same u.scheme (codes "https"))
      then err proxy_scheme
      else if is_none u.host_str || is_none u.port_or_known_default
      then err proxy_host
      else if not (is_empty u.username) || not (is_none u.password)
      then err proxy_credentials
      else if r.proxy_all u
      then build_client c
      else err invalid_proxy

  unfoldable pub build_custom : NetworkProxyConfig → Result (Unit {0})
  unfolding check_url
  build_custom c =
      if is_empty (trim c.url)
      then err proxy_url_required
      else elim (r.parse (trim c.url)) [ none ↦ err invalid_proxy_url | some u ↦ check_url c u ]

  unfoldable pub build_client_from_config : NetworkProxyConfig → Result (Unit {0})
  unfolding build_client build_custom
  build_client_from_config c = elim c.mode [
    | system ↦ build_client c
    | direct ↦ build_client c
    | custom ↦ build_custom c
  ]

  -- The result, and the proxy of the process afterwards
  unfoldable pub configure_network_proxy :
      NetworkProxyConfig → NetworkProxyConfig → Result (Unit {0}) × NetworkProxyConfig
  unfolding build_client_from_config
  configure_network_proxy config current = elim (build_client_from_config config) [
    | ok _ ↦ (ok tt, config)
    | err e ↦ (err e, current)
  ]
