-- ===== src/Settings/Seed.antt =====
-- packages/runtime/rust/src/domain/settings/seed.rs, with `default_seed` of
-- crates/engine/src/catalog/seed.rs: the providers and services of a first start. Of a catalog preset
-- only its type is used; the three presets are constants of catalog/presets.rs.
use linguaray.Base.{
  ℕ, Bool, true, false, not, ◌&&◌, ◌||◌, Option, none, some, List, [], ◌∷◌, ◌++◌, codes,
  if◌then◌else◌, is_empty, all, retain, ltb, leb, Text, same,
}
use linguaray.Base.Maps.{HashMap, get, insert, remove, or_insert, contains_key}
use linguaray.Engine.{ProviderType, ecdict, system, google_web}
use linguaray.Settings.{ProviderConfigEntry, ServiceConfigEntry, translation, Settings}
use linguaray.Settings.Mapping.{bool_text}

abbrev pub catalog_seed_revision : ℕ
catalog_seed_revision = 3

pub record SeedProvider : Type 0 where
  pub id : Text
  pub provider_type : ProviderType
  pub preset_id : Text

pub record SeedService : Type 0 where
  pub id : Text
  pub provider_id : Text
  pub enabled : Bool

pub record CatalogSeed : Type 0 where
  pub revision : ℕ
  pub providers : List SeedProvider
  pub services : List SeedService
  pub default_translation_service : Text
  pub default_dictionary_service : Text
  pub default_ocr_service : Text
  pub translation_service_order : List Text

unfoldable pub default_seed : Bool → CatalogSeed
default_seed macos = record {
  revision = catalog_seed_revision;
  providers =
      record { id = codes "ecdict"; provider_type = ecdict; preset_id = codes "ecdict" }
      ∷ record { id = codes "system"; provider_type = system; preset_id = codes "system" }
      ∷ record {
        id = codes "google-web";
        provider_type = google_web;
        preset_id = codes "google-web";
      }
      ∷ [];
  services =
      (if macos
        then record {
          id = codes "system+translation";
          provider_id = codes "system";
          enabled = false;
        }
          ∷ []
        else [])
      ++ record {
        id = codes "google-web+translation";
        provider_id = codes "google-web";
        enabled = true;
      }
        ∷ [];
  default_translation_service = codes "google-web+translation";
  default_dictionary_service = codes "ecdict+dictionary";
  default_ocr_service = codes "system+ocr";
  translation_service_order =
      codes "google-web+translation" ∷ (if macos then codes "system+translation" ∷ [] else []);
}

abbrev pub seeded_entry : Text → ProviderType → Text → ProviderConfigEntry
seeded_entry id kind preset = record {
  id = id;
  kind = kind;
  fields = [];
  created_at = none;
  preset_id = some preset;
}

-- The loops of `apply_catalog_seed_for` over what is seeded
unfoldable pub seed_providers :
    List SeedProvider → HashMap ProviderConfigEntry → HashMap ProviderConfigEntry
seed_providers [] entries = entries
seed_providers (p ∷ ps) entries =
    seed_providers ps (or_insert p.id (seeded_entry p.id p.provider_type p.preset_id) entries)

abbrev pub seeded_service : SeedService → Option ServiceConfigEntry → ServiceConfigEntry
seeded_service s none = record {
  id = s.id;
  provider_id = s.provider_id;
  kind = translation;
  name = s.id;
  fields = (codes "enabled", bool_text s.enabled) ∷ [];
  created_at = none;
}
seeded_service s (some entry) = record entry {
  fields = insert (codes "enabled") (bool_text s.enabled) entry.fields;
}

unfoldable pub seed_services :
    List SeedService → HashMap ServiceConfigEntry → HashMap ServiceConfigEntry
seed_services [] entries = entries
seed_services (s ∷ ss) entries =
    seed_services ss (insert s.id (seeded_service s (get s.id entries)) entries)

unfoldable pub is_legacy_system_only : Settings → Bool
unfolding same
is_legacy_system_only s =
    not (is_empty s.providers)
    && all (λ e. same e.0 (codes "system")) s.providers
    && all (λ e. same e.1.provider_id (codes "system")) s.services

-- A legacy system provider goes, except on macOS.
abbrev pub without_legacy : Bool → Settings → Settings
without_legacy macos s =
    if is_legacy_system_only s && not macos
    then record s {
      providers = remove (codes "system") s.providers;
      services = retain (λ e. not (same e.1.provider_id (codes "system"))) s.services;
    }
    else s

abbrev pub seeded : CatalogSeed → Settings → Settings
seeded seed s = record s {
  providers = seed_providers seed.providers s.providers;
  services = seed_services seed.services s.services;
  general = record s.general {
    default_translation_service = seed.default_translation_service;
    default_directory_service = seed.default_dictionary_service;
    default_ocr_service = seed.default_ocr_service;
    translation_service_order = seed.translation_service_order;
  };
}

unfoldable pub first_seed : Bool → Settings → Settings
unfolding is_legacy_system_only default_seed seed_providers seed_services
first_seed macos s =
    let kept = without_legacy macos s in
    if (is_empty kept.providers && is_empty kept.services) || is_legacy_system_only s
    then seeded (default_seed macos) kept
    else kept

-- Revision 2: the offline dictionary
unfoldable pub second_seed : Settings → Settings
second_seed s =
    let entry = seeded_entry (codes "ecdict") ecdict (codes "ecdict") in
    let general =
      if is_empty s.general.default_directory_service
      then record s.general { default_directory_service = codes "ecdict+dictionary" }
      else s.general in
    record s { providers = or_insert (codes "ecdict") entry s.providers; general = general }

-- Revision 3: text recognition by the system
unfoldable pub third_seed : Bool → Settings → Settings
unfolding same
third_seed macos s =
    let entry = seeded_entry (codes "system") system (codes "system") in
    let providers =
      if not macos then or_insert (codes "system") entry s.providers else s.providers in
    let general =
      if contains_key (codes "system") providers && is_empty s.general.default_ocr_service
      then record s.general { default_ocr_service = codes "system+ocr" }
      else s.general in
    record s { providers = providers; general = general }

-- The seeds of the revisions that the settings have not had yet
unfoldable pub all_seeds : Bool → Settings → Settings
all_seeds macos s =
    let first = first_seed macos s in
    let second = if ltb s.catalog_seed_revision 2 then second_seed first else first in
    if ltb s.catalog_seed_revision 3 then third_seed macos second else second

unfoldable pub apply_catalog_seed_for : Settings → Bool → Bool × Settings
apply_catalog_seed_for s macos =
    if leb catalog_seed_revision s.catalog_seed_revision
    then (false, s)
    else (true, record (all_seeds macos s) { catalog_seed_revision = catalog_seed_revision })
