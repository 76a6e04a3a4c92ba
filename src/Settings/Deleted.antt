-- ===== src/Settings/Deleted.antt =====
-- What the deletion of a provider leaves of it in the settings.
use linguaray.Base.{
  ℕ, ◌≡◌, refl, sym, ap, ◌∙◌, true, false, not, ◌&&◌, Option, none, some, [], ◌++◌, arith, codes,
  if◌then◌else◌, all, retain, all-retain, any-retain-false, Text, same, same_refl, starts_with,
}
use linguaray.Base.Maps.{HashMap, KeysApart, get, get-remove, get-retain, get-none, contains-none}
use linguaray.Errors.{Result, ok, err}
use linguaray.Storage.{Attempt}
use linguaray.Network.{Reqwest}
use linguaray.Network.Configured.{IsConfigurable}
use linguaray.Engine.{ProviderConfig}
use linguaray.Services.{remove_provider_from_translation_order}
use linguaray.Settings.{ProviderConfigEntry, ServiceConfigEntry, Settings}
use linguaray.Settings.State.{Runtime, providers, commit_settings}
use linguaray.Settings.Operations.{
  validate_provider_id, drop_provider, without_provider, removed_provider, service_ids_of,
  delete_provider,
}
use linguaray.Settings.Committed.{Whole, commit_settings-Whole}

-- A default is no service of the provider, or is cleared.
abbrev pub Cleared : Text → Settings → Text → Text → Type 0
Cleared id s before after = after ≡ (if service_ids_of id s.services before then [] else before)

-- A service of another provider
abbrev pub kept_service : Text → Option ServiceConfigEntry → Option ServiceConfigEntry
kept_service id none = none
kept_service id (some v) = if same v.provider_id id then none else some v

-- The provider, its services, their places in the order and the defaults that name them are gone;
-- all else is as it was.
pub record Forgotten (id : Text) (s s' : Settings) : Type 0 where
  pub provider : (j : Text) → get j s'.providers ≡ (if same id j then none else get j s.providers)
  pub services : (j : Text) → get j s'.services ≡ kept_service id (get j s.services)
  pub no_service : all (λ e. not (same e.1.provider_id id)) s'.services ≡ true
  pub no_place :
      all
        (λ other. not (same other id) && not (starts_with other (id ++ codes "+")))
        s'.general.translation_service_order
      ≡ true
  pub translation :
      Cleared id s s.general.default_translation_service s'.general.default_translation_service
  pub ocr : Cleared id s s.general.default_ocr_service s'.general.default_ocr_service
  pub directory :
      Cleared id s s.general.default_directory_service s'.general.default_directory_service

get-retain_services :
    (id j : Text) (services : HashMap ServiceConfigEntry) (o : Option ServiceConfigEntry)
    → KeysApart services
    → get j services ≡ o
    → get j (retain (λ e. not (same e.1.provider_id id)) services) ≡ kept_service id o
get-retain_services id j services (some v) u h =
    ground (arith, get-retain (λ e. not (same e.1.provider_id id)) j services u v h)
get-retain_services id j services none u h =
    get-none j (retain (λ e. not (same e.1.provider_id id)) services) (
      any-retain-false (λ e. not (same e.1.provider_id id)) (λ e. same e.0 j) services
        (contains-none j services h))

without_provider-Forgotten :
    (id : Text) (s : Settings) (now : ℕ)
    → KeysApart s.services
    → Forgotten id s (record (without_provider id s) { last_updated = now })
unfolding remove_provider_from_translation_order
without_provider-Forgotten id s now u = record {
  provider = λ j. get-remove j id s.providers;
  services = λ j. get-retain_services id j s.services (get j s.services) u refl;
  no_service = all-retain (λ e. not (same e.1.provider_id id)) s.services;
  no_place =
      all-retain (λ other. not (same other id) && not (starts_with other (id ++ codes "+")))
        s.general.translation_service_order;
  translation = refl;
  ocr = refl;
  directory = refl;
}

module _ {P : Type 0} (build_provider : Text → ProviderConfig → Result P) (r : Reqwest)
    (clock : Option ℕ) (a : Attempt) (rt : Runtime P) (id trimmed : Text)
    (removed : Option ProviderConfigEntry) where
  Whole-Forgotten :
      (p : Result (Option ProviderConfigEntry) × Runtime P)
      → p.0 ≡ ok removed
      → Whole build_provider r providers a rt clock (drop_provider trimmed) p
      → (now : ℕ) × (p.1.settings
          ≡ record (without_provider trimmed rt.settings) { last_updated = now })
        × (removed ≡ removed_provider trimmed (get trimmed rt.settings.providers))
  unfolding drop_provider
  Whole-Forgotten (ok v, rt') h (next, now, at, from, c) =
      let same_next : without_provider trimmed rt.settings ≡ next = ground arith in
      (
        now,
        c.settings ∙ ap (λ (other : Settings). record other { last_updated = now }) (sym same_next),
        ground arith,
      )
  Whole-Forgotten (err e, rt') h w = cc

  deleted :
      validate_provider_id id ≡ ok trimmed
      → IsConfigurable r rt.proxy
      → (delete_provider build_provider r clock a id rt).0 ≡ ok removed
      → (now : ℕ) × ((delete_provider build_provider r clock a id rt).1.settings
          ≡ record (without_provider trimmed rt.settings) { last_updated = now })
        × (removed ≡ removed_provider trimmed (get trimmed rt.settings.providers))
  unfolding delete_provider
  deleted v d h = rw v (
      Whole-Forgotten
        (commit_settings build_provider r providers clock a (drop_provider trimmed) rt) (rw v at h)
        (commit_settings-Whole build_provider r providers a rt clock (drop_provider trimmed) d))

  -- After `Ok` from delete_provider, on a state with a proxy that can be set and services with ids
  -- apart, the provider, its services and the defaults that name one of them are gone from the
  -- settings, the order of the services has neither its id nor an id that begins with it and a
  -- plus, every other provider and service is there as before, and the result is the provider.
  pub delete_provider-Forgotten :
      validate_provider_id id ≡ ok trimmed
      → IsConfigurable r rt.proxy
      → KeysApart rt.settings.services
      → (delete_provider build_provider r clock a id rt).0 ≡ ok removed
      → Forgotten trimmed rt.settings (delete_provider build_provider r clock a id rt).1.settings
        × (removed ≡ removed_provider trimmed (get trimmed rt.settings.providers))
  delete_provider-Forgotten v d u h =
      let (now, at, gone) = deleted v d h in
      (rw at (without_provider-Forgotten trimmed rt.settings now u), gone)

  -- After `Ok` from delete_provider, on a state with a proxy that can be set and services with ids
  -- apart, the provider is gone, but if its dictionary was the default and was no service of the
  -- settings, it still is the default.
  pub delete_provider-dangles :
      validate_provider_id id ≡ ok trimmed
      → IsConfigurable r rt.proxy
      → KeysApart rt.settings.services
      → (delete_provider build_provider r clock a id rt).0 ≡ ok removed
      → rt.settings.general.default_directory_service ≡ trimmed ++ codes "+dictionary"
      → service_ids_of trimmed rt.settings.services (trimmed ++ codes "+dictionary") ≡ false
      → ((delete_provider build_provider r clock a id
            rt).1.settings.general.default_directory_service
          ≡ trimmed ++ codes "+dictionary")
        × (get trimmed (delete_provider build_provider r clock a id rt).1.settings.providers ≡ none)
  delete_provider-dangles v d u h default own =
      let (f, gone) = delete_provider-Forgotten v d u h in
      (f.directory ∙ rw (default, own) refl, f.provider trimmed ∙ rw (same_refl trimmed) refl)
