-- ===== src/Settings/Built.antt =====
-- What building an engine makes of the proxy of the process.
use linguaray.Base.{◌≡◌, refl, Text}
use linguaray.Errors.{Result, ok, err}
use linguaray.Network.{NetworkProxyConfig, Reqwest, configure_network_proxy}
use linguaray.Network.Configured.{
  IsConfigurable, configure-IsConfigurable, configure-Configured, configure-err,
}
use linguaray.Engine.{ProviderConfig, Registry}
use linguaray.Settings.{Settings}
use linguaray.Settings.Building.{
  Secrets, proxy_config, engine_of, or_previous, with_proxy, with_config,
  build_from_settings_with_secrets,
}

module _ {P : Type 0} (build_provider : Text → ProviderConfig → Result P) (r : Reqwest) where
  -- The engine is that of the settings, with the proxy that they name; an error leaves the proxy.
  abbrev pub Built :
      Settings → Secrets → NetworkProxyConfig → Result (Registry P) × NetworkProxyConfig → Type 0
  Built s secrets previous (ok engine, proxy) =
      (engine_of build_provider s.providers secrets ≡ ok engine)
      × (proxy_config s.advanced ≡ ok proxy)
      × IsConfigurable r proxy
  Built s secrets previous (err e, proxy) = proxy ≡ previous

  or_previous-Built :
      (s : Settings) (secrets : Secrets) (previous proxy : NetworkProxyConfig)
      (e : Result (Registry P))
      → engine_of build_provider s.providers secrets ≡ e
      → proxy_config s.advanced ≡ ok proxy
      → IsConfigurable r proxy
      → IsConfigurable r previous
      → Built s secrets previous (or_previous build_provider r previous (e, proxy))
  or_previous-Built s secrets previous proxy (ok engine) h p c d = (h, p, c)
  or_previous-Built s secrets previous proxy (err e) h p c d =
      rw (configure-IsConfigurable r previous proxy d) refl

  with_proxy-Built :
      (s : Settings) (secrets : Secrets) (previous config : NetworkProxyConfig)
      (p : Result (Unit {0}) × NetworkProxyConfig)
      → configure_network_proxy r config previous ≡ p
      → proxy_config s.advanced ≡ ok config
      → IsConfigurable r previous
      → Built s secrets previous (with_proxy build_provider r s.providers secrets previous p)
  with_proxy-Built s secrets previous config (ok u, proxy) h p d =
      let (at, c) = configure-Configured r config previous u proxy h in
      or_previous-Built s secrets previous proxy (engine_of build_provider s.providers secrets) refl
        (rw at p) c d
  with_proxy-Built s secrets previous config (err e, proxy) h p d =
      configure-err r config previous e proxy h

  with_config-Built :
      (s : Settings) (secrets : Secrets) (previous : NetworkProxyConfig)
      (c : Result NetworkProxyConfig)
      → proxy_config s.advanced ≡ c
      → IsConfigurable r previous
      → Built s secrets previous (with_config build_provider r s.providers secrets previous c)
  with_config-Built s secrets previous (ok config) h d =
      with_proxy-Built s secrets previous config (configure_network_proxy r config previous) refl h
        d
  with_config-Built s secrets previous (err e) h d = refl

  pub build-Built :
      (s : Settings) (secrets : Secrets) (previous : NetworkProxyConfig)
      → IsConfigurable r previous
      → Built s secrets previous
          (build_from_settings_with_secrets build_provider r s secrets previous)
  build-Built s secrets previous d =
      unfold build_from_settings_with_secrets in
      with_config-Built s secrets previous (proxy_config s.advanced) refl d
