-- ===== src/Settings/State.antt =====
-- `commit_settings` of packages/runtime/rust/src/runtime/settings_api.rs, over the state of the
-- runtime (`RuntimeState` of runtime.rs) and the settings file (domain/settings/persistence.rs). An
-- update works on a copy of the settings, and its result takes the place of the state as a whole.
use linguaray.Base.{
  ℕ, Bool, true, false, not, ◌&&◌, ◌||◌, Option, none, some, List, [], ◌∷◌, ◌++◌, ◌==◌,
  if◌then◌else◌, all, length, retain, Text, same,
}
use linguaray.Base.Maps.{HashMap, get, contains_key}
use linguaray.Errors.{Result, ok, err, encode_failed, read_failed, parse_failed, clock_failed}
use linguaray.Storage.{Attempt, Directory, Outcome, write_bytes}
use linguaray.Network.{NetworkProxyConfig, Reqwest, configure_network_proxy}
use linguaray.Engine.{ProviderConfig, Registry, Value, as_str}
use linguaray.Services.{same_time}
use linguaray.Settings.{
  ProviderConfigEntry, ServiceConfigEntry, GeneralSettings, ShortcutSettings, AppearanceSettings,
  AdvancedSettings, Settings, default_settings,
}
use linguaray.Settings.Mapping.{serialize_providers, deserialize_providers}
use linguaray.Settings.Building.{Secrets, build_from_settings_with_secrets}

pub data SettingsChange : Type 0 where
  general appearance shortcuts advanced providers glossary history vocabulary : SettingsChange

-- The JSON object of the file: the providers have a form of their own there.
pub record SettingsFile : Type 0 where
  pub last_updated : ℕ
  pub providers : HashMap (HashMap Value)
  pub services : HashMap ServiceConfigEntry
  pub general : GeneralSettings
  pub shortcuts : ShortcutSettings
  pub appearance : AppearanceSettings
  pub advanced : AdvancedSettings
  pub catalog_seed_revision : ℕ

-- What `serde_json::from_str` makes of the text of a file.
pub data Contents : Type 0 where
  malformed : Contents
  document : SettingsFile → Contents

unfoldable pub encode : Settings → SettingsFile
encode s = record {
  last_updated = s.last_updated;
  providers = serialize_providers s.providers;
  services = s.services;
  general = s.general;
  shortcuts = s.shortcuts;
  appearance = s.appearance;
  advanced = s.advanced;
  catalog_seed_revision = s.catalog_seed_revision;
}

unfoldable pub decode : SettingsFile → Settings
decode f = record {
  last_updated = f.last_updated;
  providers = deserialize_providers f.providers;
  services = f.services;
  general = f.general;
  shortcuts = f.shortcuts;
  appearance = f.appearance;
  advanced = f.advanced;
  catalog_seed_revision = f.catalog_seed_revision;
}

unfoldable pub load : Bool → Directory Contents → Result Settings
load readable d = elim d.destination [
  | none ↦ ok default_settings
  | some c ↦
      if readable
      then elim c [ malformed ↦ err parse_failed | document f ↦ ok (decode f) ]
      else err read_failed
]

unfoldable pub save :
    Attempt → Settings → Directory Contents → Result (Unit {0}) × Directory Contents
unfolding write_bytes
save a s d = if a.encoded then (o.result, o.final) else (err encode_failed, d)
  where
    o : Outcome (Unit {0}) Contents
    o = write_bytes a (document (encode s)) d

-- The clock in milliseconds, unless it is before 1970 or does not fit in 64 bits.
unfoldable pub touch_last_updated : Option ℕ → Settings → Result Settings
touch_last_updated none s = err clock_failed
touch_last_updated (some now) s = ok (record s { last_updated = now })

-- `PartialEq` of a `HashMap`
abbrev pub maps_to : {V : Type 0} → (V → V → Bool) → HashMap V → Text × V → Bool
maps_to eq b e = elim (get e.0 b) [ some v ↦ eq e.1 v | none ↦ false ]

unfoldable pub same_map : {V : Type 0} → (V → V → Bool) → HashMap V → HashMap V → Bool
same_map eq a b = length a == length b && all (maps_to eq b) a

abbrev pub same_option : Option Text → Option Text → Bool
same_option none none = true
same_option (some a) (some b) = same a b
same_option _ _ = false

unfoldable pub same_provider : ProviderConfigEntry → ProviderConfigEntry → Bool
same_provider a b =
    same a.id b.id
    && same (as_str a.kind) (as_str b.kind)
    && same_map same a.fields b.fields
    && same_time a.created_at b.created_at
    && same_option a.preset_id b.preset_id

unfoldable pub engine_changed : Settings → Settings → Bool
engine_changed next current =
    not (same_map same_provider next.providers current.providers)
    || not (same next.advanced.proxy_mode current.advanced.proxy_mode)
    || not (same next.advanced.proxy_url current.advanced.proxy_url)
    || not (same next.advanced.proxy_bypass current.advanced.proxy_bypass)

-- `RuntimeState`, the settings file, the proxy of the process, and the events that were sent
pub record Runtime (P : Type 0) : Type 0 where
  pub settings : Settings
  pub engine : Registry P
  pub provider_secrets : Secrets
  pub file : Directory Contents
  pub proxy : NetworkProxyConfig
  pub events : List SettingsChange

unfoldable pub retain_secrets : HashMap ProviderConfigEntry → Secrets → Secrets
retain_secrets entries secrets = retain (λ e. contains_key e.0 entries) secrets

module _ {P : Type 0} (build_provider : Text → ProviderConfig → Result P) (r : Reqwest) where
  module _ {T : Type 0} (change : SettingsChange) (a : Attempt) where
    abbrev pub finish : T → Runtime P → Result T × Runtime P
    finish result rt = (ok result, record rt { events = rt.events ++ change ∷ [] })

    -- The save of settings for which the engine stays
    abbrev pub saved :
        T → Settings → Runtime P → Result (Unit {0}) × Directory Contents → Result T × Runtime P
    saved result next rt (ok _, file) = finish result (record rt { settings = next; file = file })
    saved result next rt (err e, file) = (err e, record rt { file = file })

    -- The save of settings with an engine of their own: an error brings the previous proxy back.
    abbrev pub saved_engine :
        T
        → Settings
        → Secrets
        → Registry P
        → NetworkProxyConfig
        → Runtime P
        → Result (Unit {0}) × Directory Contents
        → Result T × Runtime P
    saved_engine result next secrets engine proxy rt (ok _, file) = finish result (record rt {
      settings = next;
      engine = engine;
      provider_secrets = secrets;
      file = file;
      proxy = proxy;
    })
    saved_engine result next secrets engine proxy rt (err e, file) =
        (err e, record rt { file = file; proxy = (configure_network_proxy r rt.proxy proxy).1 })

    abbrev pub after_build :
        T
        → Settings
        → Secrets
        → Runtime P
        → Result (Registry P) × NetworkProxyConfig
        → Result T × Runtime P
    after_build result next secrets rt (ok engine, proxy) =
        saved_engine result next secrets engine proxy rt (save a next rt.file)
    after_build result next secrets rt (err e, proxy) = (err e, record rt { proxy = proxy })

    abbrev pub store : T → Settings → Runtime P → Result T × Runtime P
    store result next rt =
        let secrets = retain_secrets next.providers rt.provider_secrets in
        if engine_changed next rt.settings
        then after_build result next secrets rt
            (build_from_settings_with_secrets build_provider r next secrets rt.proxy)
        else saved result next rt (save a next rt.file)

    abbrev pub touched : T → Runtime P → Result Settings → Result T × Runtime P
    touched result rt (ok next) = store result next rt
    touched result rt (err e) = (err e, rt)

    abbrev pub updated : Option ℕ → Runtime P → Result (T × Settings) → Result T × Runtime P
    updated now rt (ok (result, next)) = touched result rt (touch_last_updated now next)
    updated now rt (err e) = (err e, rt)

  -- `update` gives its result and the settings that it has changed.
  unfoldable pub commit_settings :
      {T : Type 0}
      → SettingsChange
      → Option ℕ
      → Attempt
      → (Settings → Result (T × Settings))
      → Runtime P
      → Result T × Runtime P
  commit_settings change now a update rt = updated change a now rt (update rt.settings)
