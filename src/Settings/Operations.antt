-- ===== src/Settings/Operations.antt =====
-- The methods of `RuntimeSettings` in packages/runtime/rust/src/runtime/settings_api.rs that change the
-- settings or the secrets; what they change is in `Changes`.
mod Changes
unfoldable pub use linguaray.Settings.Operations.Changes.{
  validate_required, validate_provider_id, normalized_provider_entry, provider_supports_service,
  advertises_system_capability, change_provider, change_service, drop_provider, drop_service,
}
pub use linguaray.Settings.Operations.Changes.{
  Capabilities, with_order, or_else, preset_of, written_provider, created_at_of, is_translation,
  clear_default, clear_defaults, service_ids_of, without_provider, removed_provider,
}
use linguaray.Base.{
  ℕ, Bool, true, false, not, ◌&&◌, ◌||◌, Option, none, some, List, [], ◌++◌, codes, if◌then◌else◌,
  is_empty, any, retain, Text, same, trim,
}
use linguaray.Base.Maps.{HashMap, get, insert, remove, contains_key}
use linguaray.Errors.{
  Result, ok, err, required_field, no_such_provider, unsupported_service, same_service_id,
}
use linguaray.Storage.{Attempt}
use linguaray.Network.{Reqwest, NetworkProxyConfig}
use linguaray.Engine.{ProviderConfig, Registry, require}
use linguaray.Services.{
  append_translation_service_order, remove_translation_service_order,
  remove_provider_from_translation_order,
}
use linguaray.Settings.{
  ProviderConfigEntry, ServiceConfigEntry, ServiceType, translation, dictionary, ocr, llm, Settings,
  GeneralSettings, AppearanceSettings, AdvancedSettings, default_shortcuts, ShortcutSettings,
}
use linguaray.Settings.Mapping.{
  parse_provider_type, provider_config_from_settings, provider_entry_from_config,
}
use linguaray.Settings.Building.{Secrets, build_from_settings_with_secrets}
use linguaray.Settings.State.{
  Runtime, SettingsChange, general, appearance, shortcuts, advanced, providers, commit_settings,
}

module _ {P : Type 0} (build_provider : Text → ProviderConfig → Result P) (r : Reqwest)
    (clock : Option ℕ) (a : Attempt) where
  -- `patch` is the `apply` that struct_patch derives, on the section of the settings.
  unfoldable pub update_section :
      {T : Type 0}
      → SettingsChange
      → (T → T)
      → (Settings → T)
      → (T → Settings → Settings)
      → Runtime P
      → Result T × Runtime P
  update_section change patch select put =
      commit_settings build_provider r change clock a
        (λ s. ok (patch (select s), put (patch (select s)) s))

  unfoldable pub update_general :
      (GeneralSettings → GeneralSettings) → Runtime P → Result GeneralSettings × Runtime P
  unfolding update_section
  update_general patch =
      update_section general patch (λ s. s.general) (λ section s. record s { general = section })

  unfoldable pub update_appearance :
      (AppearanceSettings → AppearanceSettings) → Runtime P → Result AppearanceSettings × Runtime P
  unfolding update_section
  update_appearance patch =
      update_section appearance patch (λ s. s.appearance)
        (λ section s. record s { appearance = section })

  unfoldable pub update_shortcuts :
      (ShortcutSettings → ShortcutSettings) → Runtime P → Result ShortcutSettings × Runtime P
  unfolding update_section
  update_shortcuts patch =
      update_section shortcuts patch (λ s. s.shortcuts)
        (λ section s. record s { shortcuts = section })

  unfoldable pub update_advanced :
      (AdvancedSettings → AdvancedSettings) → Runtime P → Result AdvancedSettings × Runtime P
  unfolding update_section
  update_advanced patch =
      update_section advanced patch (λ s. s.advanced) (λ section s. record s { advanced = section })

  unfoldable pub reset_shortcuts : Runtime P → Result ShortcutSettings × Runtime P
  reset_shortcuts =
      commit_settings build_provider r shortcuts clock a
        (λ s. ok (default_shortcuts, record s { shortcuts = default_shortcuts }))

  unfoldable pub set_translation_service_order :
      List Text → Runtime P → Result (List Text) × Runtime P
  set_translation_service_order order =
      commit_settings build_provider r general clock a (λ s. ok (order, with_order (λ _. order) s))

  abbrev pub and_then :
      {A T : Type 0} → Result A → Runtime P → (A → Result T × Runtime P) → Result T × Runtime P
  and_then (ok v) rt k = k v
  and_then (err e) rt k = (err e, rt)

  -- `now` is the clock in seconds.
  unfoldable pub update_provider :
      Option ℕ
      → Text
      → Text
      → HashMap Text
      → Option Text
      → Runtime P
      → Result ProviderConfigEntry × Runtime P
  update_provider now id kind fields preset_id rt = and_then (validate_provider_id id) rt (λ id.
      and_then (validate_required (codes "provider_type") kind) rt (λ kind.
        and_then (parse_provider_type kind) rt (λ kind.
          let entry : ProviderConfigEntry = record {
            id = id;
            kind = kind;
            fields = fields;
            created_at = none;
            preset_id = preset_id;
          } in
          commit_settings build_provider r providers clock a
            (change_provider now id (provider_config_from_settings entry) preset_id) rt)))

  unfoldable pub delete_provider :
      Text → Runtime P → Result (Option ProviderConfigEntry) × Runtime P
  delete_provider id rt =
      and_then (validate_provider_id id) rt
        (λ id. commit_settings build_provider r providers clock a (drop_provider id) rt)

  unfoldable pub delete_service : Text → Runtime P → Result (Option ServiceConfigEntry) × Runtime P
  delete_service id rt =
      and_then (validate_provider_id id) rt
        (λ id. commit_settings build_provider r providers clock a (drop_service id) rt)

  module _ (c : Capabilities P) (macos : Bool) where
    -- The checks of `update_service` before the commit
    unfoldable pub check_service : Text → ServiceType → Runtime P → Result (Unit {0})
    unfolding provider_supports_service advertises_system_capability
    check_service id kind rt =
        if not (contains_key id rt.settings.providers)
        then err (no_such_provider id)
        else elim (require id rt.engine) [
          | err e ↦ err e
          | ok p ↦
              if not (provider_supports_service c p kind)
                || not (advertises_system_capability macos id kind)
              then err (unsupported_service id)
              else ok tt
        ]

    unfoldable pub update_service :
        Option ℕ
        → Text
        → Text
        → ServiceType
        → Text
        → HashMap Text
        → Runtime P
        → Result ServiceConfigEntry × Runtime P
    update_service now id provider_id kind name fields rt =
        and_then (validate_provider_id id) rt (λ id.
          and_then (validate_provider_id provider_id) rt (λ provider_id.
            and_then (check_service provider_id kind rt) rt (λ _.
              commit_settings build_provider r providers clock a
                (change_service now id provider_id kind (trim name) fields) rt)))

-- `filter(|(key, value)| !key.trim().is_empty() && !value.is_empty())`
abbrev pub clean_secrets : HashMap Text → HashMap Text
clean_secrets secrets = retain (λ e. not (is_empty (trim e.0)) && not (is_empty e.1)) secrets

module _ {P : Type 0} (build_provider : Text → ProviderConfig → Result P) (r : Reqwest) where
  -- The secrets are put into the state before the engine is built.
  abbrev pub rebuilt :
      Runtime P → Result (Registry P) × NetworkProxyConfig → Result (Unit {0}) × Runtime P
  rebuilt rt (ok engine, proxy) = (ok tt, record rt { engine = engine; proxy = proxy })
  rebuilt rt (err e, proxy) = (err e, record rt { proxy = proxy })

  abbrev pub with_secrets : Text → HashMap Text → Secrets → Secrets
  with_secrets id secrets all = if is_empty secrets then remove id all else insert id secrets all

  abbrev pub store_secrets : Text → HashMap Text → Runtime P → Result (Unit {0}) × Runtime P
  store_secrets id secrets rt =
      let kept = with_secrets id (clean_secrets secrets) rt.provider_secrets in
      rebuilt (record rt { provider_secrets = kept })
        (build_from_settings_with_secrets build_provider r rt.settings kept rt.proxy)

  abbrev pub with_id : Result Text → HashMap Text → Runtime P → Result (Unit {0}) × Runtime P
  with_id (err e) secrets rt = (err e, rt)
  with_id (ok id) secrets rt =
      if not (contains_key id rt.settings.providers)
      then (err (no_such_provider id), rt)
      else store_secrets id secrets rt

  unfoldable pub set_provider_secrets :
      Text → HashMap Text → Runtime P → Result (Unit {0}) × Runtime P
  set_provider_secrets id secrets rt = with_id (validate_provider_id id) secrets rt
