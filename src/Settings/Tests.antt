-- ===== src/Settings/Tests.antt =====
-- Runs of the settings on small inputs, and the theorems at inputs that meet their hypotheses.
use linguaray.Base.{
  all, map, ◌≡◌, refl, true, false, none, some, [], ◌∷◌, codes, Text, is_empty, inl, same, trim,
  if◌then◌else◌,
}
use linguaray.Base.Maps.{HashMap, contains_key, get, insert}
use linguaray.Errors.{Result, ok, err, rejected_provider}
use linguaray.Storage.{Attempt, write_bytes}
use linguaray.Network.{Reqwest, system, configure_network_proxy, build_client_from_config}
use linguaray.Engine.{require, ProviderConfig, ecdict, from_config, as_str}
use linguaray.Settings.{
  ProviderConfigEntry, Settings, GeneralSettings, default_settings, default_general,
}
use linguaray.Settings.Mapping.{provider_config_from_settings}
use linguaray.Settings.Kept.{IsPlain, reread}
use linguaray.Settings.Building.{
  proxy_config, proxy_mode_of, configs_of, engine_of, build_from_settings_with_secrets,
}
use linguaray.Settings.State.{
  Runtime, document, encode, load, save, commit_settings, touch_last_updated, engine_changed,
  same_map, same_provider, general,
}
use linguaray.Settings.Committed.{Whole, commit_settings-Whole}
use linguaray.Base.Sort.{sort_by}
use linguaray.Settings.Operations.{
  provider_supports_service, advertises_system_capability, Capabilities, update_general,
  update_section, delete_provider, drop_provider, set_provider_secrets, validate_provider_id,
  validate_required, removed_provider, clean_secrets, normalized_provider_entry,
}
use linguaray.Settings.Listing.{
  list_services, services_by_id, add_providers, add_provider, add_implicit, add_services,
  is_offered, service_entry_for_provider_type, sorted_services,
}
use linguaray.Settings.Listing.Served.{is_served, list_services-AllServed}
use linguaray.Settings.Deleted.{Forgotten, delete_provider-Forgotten, delete_provider-dangles}
use linguaray.Settings.Secret.{set_provider_secrets-keeps_rejected}
use linguaray.Settings.Seed.{apply_catalog_seed_for, is_legacy_system_only}
use linguaray.Settings.Seeded.{IsUsed, Keeps, apply_catalog_seed-Keeps}
use linguaray.Settings.Names.{
  generate_provider_id, generate_provider_id-finds_free, search_id, candidate,
}
use linguaray.Settings.InStep.{InStep}
use linguaray.Settings.Runs.{here, next, general_updated, load_settings-Run}

abbrev free : Attempt
free = record {
  encoded = true;
  created = true;
  staged = true;
  written = true;
  flushed = true;
  committed = true;
  dir_synced = true;
}

abbrev no_url : Reqwest
no_url = record { parse = λ text. none; proxy_all = λ url. true; build = λ config. true }

-- A provider is its name; one without a field `apiKey` is refused.
abbrev build : Text → ProviderConfig → Result Text
build id config =
    if contains_key (codes "bad") config.options then err (rejected_provider id) else ok id

abbrev entry : ProviderConfigEntry
entry = record {
  id = codes "ecdict";
  kind = ecdict;
  fields = (codes "level", codes "2") ∷ [];
  created_at = some 5;
  preset_id = some (codes "ecdict");
}

abbrev settings : Settings
settings = record default_settings {
  providers = (codes "ecdict", entry) ∷ [];
  general = record default_general {
    default_directory_service = codes "ecdict+dictionary";
    translation_service_order = codes "ecdict+translation" ∷ codes "other+translation" ∷ [];
  };
}

abbrev runtime : Runtime Text
runtime = record {
  settings = settings;
  engine = record { providers = (codes "ecdict", codes "ecdict") ∷ [] };
  provider_secrets = [];
  file = record {
    destination = some (document (encode settings));
    staging = 0;
    quarantined = λ k. none;
  };
  proxy = record { mode = system; url = []; bypass = codes "localhost,127.0.0.1" };
  events = [];
}

configurable : build_client_from_config no_url runtime.proxy ≡ ok tt
unfolding build_client_from_config
configurable = refl

settings-IsPlain : IsPlain entry.fields
unfolding same
settings-IsPlain = record {
  apart = (refl, tt);
  no_type = refl;
  no_preset = refl;
  no_old_key = refl;
}

runtime-InStep : InStep build no_url runtime
unfolding engine_of configs_of from_config proxy_config proxy_mode_of build_client_from_config same
    trim provider_config_from_settings encode
runtime-InStep = record {
  file = refl;
  engine = (settings.providers, inl refl, refl);
  proxy = refl;
  configurable = refl;
}

abbrev shown : GeneralSettings → GeneralSettings
shown g = record g { show_in_menu_bar = false }

commit_settings-Whole_example :
    Whole build no_url general free runtime
      (some 7)
      (λ s. ok (tt {0}, record s { general = shown s.general }))
      (commit_settings build no_url general
        (some 7)
        free
        (λ s. ok (tt, record s { general = shown s.general }))
        runtime)
commit_settings-Whole_example =
    commit_settings-Whole build no_url general free runtime (some 7)
      (λ s. ok (tt {0}, record s { general = shown s.general })) configurable

abbrev after_update : Runtime Text
after_update = (update_general build no_url (some 7) free shown runtime).1

after_update-providers : after_update.settings.providers ≡ settings.providers
unfolding update_general update_section commit_settings touch_last_updated engine_changed same_map
    same_provider save write_bytes same as_str
after_update-providers = refl

load_settings-Run_example :
    InStep build no_url after_update
    × (load true after_update.file
        ≡ ok (record after_update.settings { providers = reread after_update.settings.providers }))
load_settings-Run_example =
    load_settings-Run build no_url runtime-InStep (next here (general_updated (some 7) free shown))
      (rw after_update-providers (settings-IsPlain, tt))

deleted : (delete_provider build no_url (some 7) free (codes " ecdict") runtime).0 ≡ ok (some entry)
unfolding delete_provider commit_settings drop_provider touch_last_updated engine_changed same_map
    same_provider save write_bytes same as_str build_from_settings_with_secrets proxy_config
    proxy_mode_of configure_network_proxy engine_of configs_of from_config validate_provider_id trim
    validate_required normalized_provider_entry
deleted = refl

trimmed : validate_provider_id (codes " ecdict") ≡ ok (codes "ecdict")
unfolding validate_provider_id
trimmed = refl

delete_provider-Forgotten_example :
    Forgotten
      (codes "ecdict")
      settings
      (delete_provider build no_url (some 7) free (codes " ecdict") runtime).1.settings
    × (some entry ≡ removed_provider (codes "ecdict") (get (codes "ecdict") settings.providers))
delete_provider-Forgotten_example =
    delete_provider-Forgotten build no_url (some 7) free runtime (codes " ecdict") (codes "ecdict")
      (some entry) trimmed configurable tt deleted

delete_provider-dangles_example :
    ((delete_provider build no_url
        (some 7)
        free
        (codes " ecdict")
        runtime).1.settings.general.default_directory_service
      ≡ codes "ecdict+dictionary")
    × (get
          (codes "ecdict")
          (delete_provider build no_url
            (some 7)
            free
            (codes " ecdict")
            runtime).1.settings.providers
        ≡ none)
delete_provider-dangles_example =
    delete_provider-dangles build no_url (some 7) free runtime (codes " ecdict") (codes "ecdict")
      (some entry) trimmed configurable tt deleted refl refl

abbrev rejected : HashMap Text
rejected = (codes "bad", codes "1") ∷ []

full : is_empty (clean_secrets rejected) ≡ false
unfolding trim
full = refl

known : contains_key (codes "ecdict") settings.providers ≡ true
unfolding same
known = refl

refused :
    (build_from_settings_with_secrets build no_url settings
      (insert (codes "ecdict") (clean_secrets rejected) [])
      runtime.proxy).0
    ≡ err (rejected_provider (codes "ecdict"))
unfolding build_from_settings_with_secrets proxy_config proxy_mode_of configure_network_proxy
    engine_of configs_of from_config same trim provider_config_from_settings
refused = refl

set_provider_secrets-keeps_rejected_example :
    ((set_provider_secrets build no_url (codes " ecdict") rejected runtime).0
      ≡ err (rejected_provider (codes "ecdict")))
    × ((set_provider_secrets build no_url (codes " ecdict") rejected runtime).1.engine
        ≡ runtime.engine)
    × (get
          (codes "ecdict")
          (set_provider_secrets build no_url (codes " ecdict") rejected runtime).1.provider_secrets
        ≡ some (clean_secrets rejected))
set_provider_secrets-keeps_rejected_example =
    set_provider_secrets-keeps_rejected build no_url runtime (codes " ecdict") (codes "ecdict")
      rejected (rejected_provider (codes "ecdict")) trimmed known full refused

settings-IsUsed : IsUsed settings
unfolding is_legacy_system_only
settings-IsUsed = record { not_legacy = refl; not_empty = refl }

apply_catalog_seed-Keeps_example :
    Keeps settings (apply_catalog_seed_for settings false).1
    × (apply_catalog_seed_for (apply_catalog_seed_for settings false).1 false
        ≡ (false, (apply_catalog_seed_for settings false).1))
apply_catalog_seed-Keeps_example = apply_catalog_seed-Keeps settings false settings-IsUsed

not_blank : is_empty (trim (codes " ecdict ")) ≡ false
unfolding trim
not_blank = refl

generate_provider_id-finds_free_example :
    (id : Text) × (generate_provider_id (λ t. t) (codes " ecdict ") settings ≡ ok id)
    × (contains_key id settings.providers ≡ false)
generate_provider_id-finds_free_example =
    generate_provider_id-finds_free (λ t. t) (codes " ecdict ") settings not_blank

second_name : generate_provider_id (λ t. t) (codes " ecdict ") settings ≡ ok (codes "ecdict1")
unfolding generate_provider_id search_id candidate trim same
second_name = refl

abbrev dictionaries : Capabilities Text
dictionaries = record {
  has_translation = λ p. false;
  has_dictionary = λ p. true;
  has_ocr = λ p. false;
  has_llm = λ p. false;
}

own : (normalized_provider_entry (codes "ecdict") entry).id ≡ codes "ecdict"
unfolding normalized_provider_entry trim
own = refl

list_services-AllServed_example :
    all (is_served dictionaries false runtime.engine) (list_services dictionaries false runtime)
    ≡ true
list_services-AllServed_example = list_services-AllServed dictionaries false runtime (own, tt)

listed : map (λ s. s.id) (list_services dictionaries false runtime) ≡ codes "ecdict+dictionary" ∷ []
unfolding list_services services_by_id add_providers add_provider add_implicit add_services
    is_offered service_entry_for_provider_type sorted_services sort_by require same
    provider_supports_service advertises_system_capability
listed = refl
