-- ===== src/Settings/Operations/Changes.antt =====
-- The checks of packages/runtime/rust/src/runtime/support.rs, and the changes that the methods of
-- runtime/settings_api.rs make to the settings.
use linguaray.Base.{
  ℕ, Bool, true, false, not, ◌&&◌, ◌||◌, Option, none, some, List, [], ◌++◌, codes, if◌then◌else◌,
  is_empty, any, retain, Text, same, trim,
}
use linguaray.Base.Maps.{HashMap, get, insert, remove, contains_key}
use linguaray.Errors.{Result, ok, err, required_field, no_such_provider, same_service_id}
use linguaray.Engine.{ProviderConfig}
use linguaray.Services.{
  append_translation_service_order, remove_translation_service_order,
  remove_provider_from_translation_order,
}
use linguaray.Settings.{
  ProviderConfigEntry, ServiceConfigEntry, ServiceType, translation, dictionary, ocr, llm, Settings,
}
use linguaray.Settings.Mapping.{provider_entry_from_config}

unfoldable pub validate_required : Text → Text → Result Text
unfolding trim
validate_required name value =
    if is_empty (trim value) then err (required_field name) else ok (trim value)

unfoldable pub validate_provider_id : Text → Result Text
unfolding validate_required
validate_provider_id id = validate_required (codes "provider_id") id

-- A provider of an older settings file may have no id of its own.
unfoldable pub normalized_provider_entry : Text → ProviderConfigEntry → ProviderConfigEntry
normalized_provider_entry id p = if is_empty (trim p.id) then record p { id = id } else p

-- Which services a built provider has
pub record Capabilities (P : Type 0) : Type 0 where
  pub has_translation : P → Bool
  pub has_dictionary : P → Bool
  pub has_ocr : P → Bool
  pub has_llm : P → Bool

module _ {P : Type 0} (c : Capabilities P) where
  unfoldable pub provider_supports_service : P → ServiceType → Bool
  provider_supports_service p dictionary = c.has_dictionary p
  provider_supports_service p ocr = c.has_ocr p
  provider_supports_service p translation = c.has_translation p || c.has_llm p
  provider_supports_service p llm = c.has_llm p

-- `cfg!(target_os = "macos")` is an argument.
unfoldable pub advertises_system_capability : Bool → Text → ServiceType → Bool
advertises_system_capability macos id ocr = true
advertises_system_capability macos id _ = not (same id (codes "system")) || macos

-- The changes of the settings, one for each method

abbrev pub with_order : (List Text → List Text) → Settings → Settings
with_order f s = record s {
  general = record s.general { translation_service_order = f s.general.translation_service_order };
}

abbrev pub or_else : Option Text → Option Text → Option Text
or_else none other = other
or_else (some v) other = some v

abbrev pub preset_of : Option ProviderConfigEntry → Option Text
preset_of none = none
preset_of (some p) = p.preset_id

abbrev pub written_provider :
    Option ℕ → Text → ProviderConfigEntry → Option ProviderConfigEntry → Settings → Settings
written_provider now id entry (some existing) s = record s {
  providers =
      insert id
        (record existing {
          id = id;
          kind = entry.kind;
          fields = entry.fields;
          preset_id = entry.preset_id;
        })
        s.providers;
}
written_provider now id entry none s =
    with_order (append_translation_service_order (id ++ codes "+translation"))
      (record s { providers = insert id (record entry { created_at = now }) s.providers })

unfoldable pub change_provider :
    Option ℕ
    → Text
    → ProviderConfig
    → Option Text
    → Settings
    → Result (ProviderConfigEntry × Settings)
change_provider now id config preset_id s =
    let existing = get id s.providers in
    let entry = record (provider_entry_from_config id config) {
      preset_id = or_else preset_id (preset_of existing);
    } in
    ok (entry, written_provider now id entry existing s)

abbrev pub created_at_of : Option ℕ → Option ServiceConfigEntry → Option ℕ
created_at_of now none = now
created_at_of now (some existing) = elim existing.created_at [ none ↦ now | some t ↦ some t ]

-- The kinds of services are those of the code's enum.
abbrev pub is_translation : ServiceType → Bool
is_translation translation = true
is_translation _ = false

unfoldable pub change_service :
    Option ℕ
    → Text
    → Text
    → ServiceType
    → Text
    → HashMap Text
    → Settings
    → Result (ServiceConfigEntry × Settings)
change_service now id provider_id kind name fields s =
    let entry : ServiceConfigEntry = record {
      id = id;
      provider_id = provider_id;
      kind = kind;
      name = name;
      fields = fields;
      created_at = created_at_of now (get id s.services);
    } in
    let written = record s { services = insert id entry s.services } in
    if not (contains_key provider_id s.providers)
    then err (no_such_provider provider_id)
    else if same id provider_id
    then err same_service_id
    else ok (
      entry,
      if not (contains_key id s.services) && is_translation kind
          then with_order (append_translation_service_order id) written
          else written,
    )

-- A default that names one of the removed services is cleared.
abbrev pub clear_default : (Text → Bool) → Text → Text
clear_default removed id = if removed id then [] else id

abbrev pub clear_defaults : (Text → Bool) → Settings → Settings
clear_defaults removed s = record s {
  general = record s.general {
    default_translation_service = clear_default removed s.general.default_translation_service;
    default_ocr_service = clear_default removed s.general.default_ocr_service;
    default_directory_service = clear_default removed s.general.default_directory_service;
  };
}

-- `removed_service_ids`: the services hold their ids themselves.
abbrev pub service_ids_of : Text → HashMap ServiceConfigEntry → Text → Bool
service_ids_of provider_id services id =
    any (λ e. same e.1.provider_id provider_id && same e.1.id id) services

abbrev pub without_provider : Text → Settings → Settings
without_provider id s = clear_defaults (service_ids_of id s.services) (
    with_order (remove_provider_from_translation_order id) (record s {
      providers = remove id s.providers;
      services = retain (λ e. not (same e.1.provider_id id)) s.services;
    }))

abbrev pub removed_provider : Text → Option ProviderConfigEntry → Option ProviderConfigEntry
removed_provider id none = none
removed_provider id (some p) = some (normalized_provider_entry id p)

unfoldable pub drop_provider : Text → Settings → Result (Option ProviderConfigEntry × Settings)
drop_provider id s = ok (removed_provider id (get id s.providers), without_provider id s)

unfoldable pub drop_service : Text → Settings → Result (Option ServiceConfigEntry × Settings)
drop_service id s = ok (
  elim (get id s.services) [ none ↦ none | some service ↦ some (record service { id = id }) ],
  clear_defaults (λ other. same other id)
      (with_order (remove_translation_service_order id)
        (record s { services = remove id s.services })),
)
