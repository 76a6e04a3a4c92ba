-- ===== src/Network/Configured.antt =====
-- The proxy of the process is one for which a client can be built.
use linguaray.Base.{◌≡◌, arith, inl, inr}
use linguaray.Errors.{Error, ok, err, Result-cases}
use linguaray.Network.{
  Reqwest, NetworkProxyConfig, build_client_from_config, configure_network_proxy,
}

abbrev pub IsConfigurable : Reqwest → NetworkProxyConfig → Type 0
IsConfigurable r c = build_client_from_config r c ≡ ok tt

-- A proxy that was in force can be set again.
pub configure-IsConfigurable :
    (r : Reqwest) (config current : NetworkProxyConfig)
    → IsConfigurable r config
    → configure_network_proxy r config current ≡ (ok tt, config)
unfolding configure_network_proxy
configure-IsConfigurable r config current h = rw (h, configure_network_proxy)

module _ (r : Reqwest) (config current : NetworkProxyConfig) where
  -- What is configured can be configured again; an error leaves the proxy as it was.
  pub configure-Configured :
      (u : Unit {0}) (proxy : NetworkProxyConfig)
      → configure_network_proxy r config current ≡ (ok u, proxy)
      → (proxy ≡ config) × IsConfigurable r proxy
  unfolding configure_network_proxy
  configure-Configured u proxy h = elim (Result-cases (build_client_from_config r config)) [
    | inl (v, e) ↦ ground arith
    | inr (x, e) ↦ ground arith
  ]

  pub configure-err :
      (e : Error) (proxy : NetworkProxyConfig)
      → configure_network_proxy r config current ≡ (err e, proxy)
      → proxy ≡ current
  unfolding configure_network_proxy
  configure-err e proxy h = elim (Result-cases (build_client_from_config r config)) [
    | inl (v, e) ↦ ground arith
    | inr (x, e) ↦ ground arith
  ]
