-- ===== src/Settings/Building.antt =====
-- `build_from_settings_with_secrets` of packages/runtime/rust/src/domain/engine.rs: the engine for the
-- settings and the secrets, and the proxy of the process. The locks are taken not to be poisoned.
use linguaray.Base.{
  Bool, ◌||◌, Option, none, some, [], ◌∷◌, codes, if◌then◌else◌, is_empty, Text, same, trim,
  le_text,
}
use linguaray.Base.Sort.{sort_by}
use linguaray.Base.Maps.{HashMap, get, insert}
use linguaray.Errors.{Result, ok, err, unknown_proxy_mode, provider_id_required}
use linguaray.Network.{
  NetworkProxyMode, NetworkProxyConfig, Reqwest, system, direct, custom, configure_network_proxy,
}
use linguaray.Engine.{ProviderConfig, Registry, from_config}
use linguaray.Settings.{ProviderConfigEntry, AdvancedSettings, Settings}
use linguaray.Settings.Mapping.{provider_config_from_settings}

abbrev pub Secrets : Type 0
Secrets = HashMap (HashMap Text)

unfoldable pub proxy_mode_of : Text → Result NetworkProxyMode
proxy_mode_of text =
    let mode = trim text in
    if is_empty mode || same mode (codes "system")
    then ok system
    else if same mode (codes "direct")
    then ok direct
    else if same mode (codes "custom")
    then ok custom
    else err (unknown_proxy_mode mode)

unfoldable pub proxy_config : AdvancedSettings → Result NetworkProxyConfig
proxy_config a = elim (proxy_mode_of a.proxy_mode) [
  | ok mode ↦ ok (record { mode = mode; url = a.proxy_url; bypass = a.proxy_bypass })
  | err e ↦ err e
]

-- `hydrated.fields.extend(secrets)`
unfoldable pub extend : HashMap Text → HashMap Text → HashMap Text
extend fields [] = fields
extend fields ((k, v) ∷ secrets) = extend (insert k v fields) secrets

abbrev pub hydrated : Option (HashMap Text) → ProviderConfigEntry → ProviderConfigEntry
hydrated none p = p
hydrated (some secrets) p = record p { fields = extend p.fields secrets }

-- The loop over the providers
unfoldable pub configs_of :
    HashMap ProviderConfigEntry → Secrets → HashMap ProviderConfig → Result (HashMap ProviderConfig)
unfolding extend
configs_of [] secrets configs = ok configs
configs_of ((key, p) ∷ providers) secrets configs =
    let id = trim key in
    let config = provider_config_from_settings (hydrated (get id secrets) p) in
    let rest = configs_of providers secrets (insert id config configs) in
    if is_empty id then err provider_id_required else rest

abbrev pub by_key : {A : Type 0} → Text × A → Text × A → Bool
by_key a b = le_text a.0 b.0

module _ {P : Type 0} (build_provider : Text → ProviderConfig → Result P) where
  -- `BTreeMap` yields its entries in the order of the keys.
  unfoldable pub engine_of : HashMap ProviderConfigEntry → Secrets → Result (Registry P)
  unfolding configs_of sort_by
  engine_of providers secrets = elim (configs_of providers secrets []) [
    | ok configs ↦ from_config build_provider (sort_by by_key configs)
    | err e ↦ err e
  ]

  module _ (r : Reqwest) where
    -- An engine that cannot be built brings the previous proxy back.
    abbrev pub or_previous :
        NetworkProxyConfig
        → Result (Registry P) × NetworkProxyConfig
        → Result (Registry P) × NetworkProxyConfig
    or_previous previous (ok engine, proxy) = (ok engine, proxy)
    or_previous previous (err e, proxy) = (err e, (configure_network_proxy r previous proxy).1)

    abbrev pub with_proxy :
        HashMap ProviderConfigEntry
        → Secrets
        → NetworkProxyConfig
        → Result (Unit {0}) × NetworkProxyConfig
        → Result (Registry P) × NetworkProxyConfig
    with_proxy providers secrets previous (ok _, proxy) =
        or_previous previous (engine_of providers secrets, proxy)
    with_proxy providers secrets previous (err e, proxy) = (err e, proxy)

    abbrev pub with_config :
        HashMap ProviderConfigEntry
        → Secrets
        → NetworkProxyConfig
        → Result NetworkProxyConfig
        → Result (Registry P) × NetworkProxyConfig
    with_config providers secrets previous (ok config) =
        with_proxy providers secrets previous (configure_network_proxy r config previous)
    with_config providers secrets previous (err e) = (err e, previous)

    unfoldable pub build_from_settings_with_secrets :
        Settings → Secrets → NetworkProxyConfig → Result (Registry P) × NetworkProxyConfig
    build_from_settings_with_secrets settings secrets previous =
        with_config settings.providers secrets previous (proxy_config settings.advanced)
