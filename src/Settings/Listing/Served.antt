-- ===== src/Settings/Listing/Served.antt =====
-- Every service that is listed can be served.
use linguaray.Base.{
  ◌≡◌, refl, ◌∙◌, Bool, true, false, [], ◌∷◌, ◌++◌, arith, all, map, Text, Bool-cases, inl, inr,
  All, codes,
}
use linguaray.Base.Maps.{HashMap, insert}
use linguaray.Base.Sort.{all-sort_by}
use linguaray.Errors.{Result, ok, err}
use linguaray.Engine.{Registry, require}
use linguaray.Settings.{
  ProviderConfigEntry, ServiceConfigEntry, ServiceType, translation, dictionary, ocr,
}
use linguaray.Settings.State.{Runtime}
use linguaray.Settings.Operations.{Capabilities, normalized_provider_entry}
use linguaray.Settings.Listing.{
  is_offered, add_implicit, add_provider, add_providers, add_service, add_services, services_by_id,
  list_services, service_entry_for_provider_type, sorted_services,
}

-- The provider goes by the key under which it is stored.
abbrev pub IsOwn : Text × ProviderConfigEntry → Type 0
IsOwn e = (normalized_provider_entry e.0 e.1).id ≡ e.0

all-insert :
    {V : Type 0} (q : V → Bool) (k : Text) (v : V) (m : HashMap V)
    → q v ≡ true
    → all (λ e. q e.1) m ≡ true
    → all (λ e. q e.1) (insert k v m) ≡ true
all-insert q k v [] h hs = ground arith
all-insert q k v ((j, w) ∷ m) h hs = ground (arith, all-insert q k v m)

all-values :
    {V : Type 0} (q : V → Bool) (m : HashMap V) → all q (map (λ e. e.1) m) ≡ all (λ e. q e.1) m
all-values q [] = refl
all-values q (e ∷ m) = ground (arith, all-values q m)

module _ {P : Type 0} (c : Capabilities P) (macos : Bool) where
  -- The engine has the provider, which offers the service.
  unfoldable pub is_served : Registry P → ServiceConfigEntry → Bool
  is_served engine s = elim (require s.provider_id engine) [
    | ok p ↦ is_offered c macos s.provider_id p s.kind
    | err e ↦ false
  ]

  module _ (engine : Registry P) where
    abbrev AllServed : HashMap ServiceConfigEntry → Type 0
    AllServed by_id = all (λ e. is_served engine e.1) by_id ≡ true

    add_implicit-AllServed :
        (id : Text) (p : P) (entry : ProviderConfigEntry) (suffix : Text) (kind : ServiceType)
        (by_id : HashMap ServiceConfigEntry)
        → require id engine ≡ ok p
        → entry.id ≡ id
        → AllServed by_id
        → AllServed (add_implicit c macos id p entry suffix kind by_id)
    unfolding add_implicit is_served service_entry_for_provider_type
    add_implicit-AllServed id p entry suffix kind by_id r own h =
        elim (Bool-cases (is_offered c macos id p kind)) [
          | inl offered ↦ rw offered (
              all-insert (is_served engine) (id ++ suffix)
                (service_entry_for_provider_type (id ++ suffix) entry kind) by_id
                (rw (own, r, is_served, own) offered) h)
          | inr refused ↦ rw refused h
        ]

    add_provider-AllServed :
        (id : Text) (provider : ProviderConfigEntry) (by_id : HashMap ServiceConfigEntry)
        (r : Result P)
        → require id engine ≡ r
        → IsOwn (id, provider)
        → AllServed by_id
        → AllServed (add_provider c macos engine (id, provider) by_id)
    unfolding add_provider
    add_provider-AllServed id provider by_id (err e) r own h = rw (r, add_provider) h
    add_provider-AllServed id provider by_id (ok p) r own h =
        let entry = normalized_provider_entry id provider in
        let first = add_implicit c macos id p entry (codes "+dictionary") dictionary by_id in
        let second = add_implicit c macos id p entry (codes "+translation") translation first in
        rw (r, add_provider)
          (add_implicit-AllServed id p entry (codes "+ocr") ocr second r own (
            add_implicit-AllServed id p entry (codes "+translation") translation first r own
              (add_implicit-AllServed id p entry (codes "+dictionary") dictionary by_id r own h)))

    add_providers-AllServed :
        (providers : HashMap ProviderConfigEntry) (by_id : HashMap ServiceConfigEntry)
        → All IsOwn providers
        → AllServed by_id
        → AllServed (add_providers c macos engine providers by_id)
    unfolding add_providers
    add_providers-AllServed [] by_id own h = h
    add_providers-AllServed ((id, p) ∷ es) by_id (own, owns) h =
        add_providers-AllServed es (add_provider c macos engine (id, p) by_id) owns
          (add_provider-AllServed id p by_id (require id engine) refl own h)

    add_service-AllServed :
        (providers : HashMap ProviderConfigEntry) (id : Text) (service : ServiceConfigEntry)
        (by_id : HashMap ServiceConfigEntry)
        → AllServed by_id
        → AllServed (add_service c macos providers engine (id, service) by_id)
    unfolding add_service is_served
    add_service-AllServed providers id service by_id h =
        ground (arith, all-insert (is_served engine) id (record service { id = id }) by_id)

    add_services-AllServed :
        (providers : HashMap ProviderConfigEntry) (services by_id : HashMap ServiceConfigEntry)
        → AllServed by_id
        → AllServed (add_services c macos providers engine services by_id)
    unfolding add_services
    add_services-AllServed providers [] by_id h = h
    add_services-AllServed providers ((id, service) ∷ es) by_id h =
        add_services-AllServed providers es
          (add_service c macos providers engine (id, service) by_id)
          (add_service-AllServed providers id service by_id h)

  -- If every provider goes by its key, the engine has the provider of each service that is listed,
  -- and that provider offers the service on this system.
  pub list_services-AllServed :
      (rt : Runtime P)
      → All IsOwn rt.settings.providers
      → all (is_served rt.engine) (list_services c macos rt) ≡ true
  unfolding list_services services_by_id sorted_services
  list_services-AllServed rt own =
      all-sort_by _ (is_served rt.engine) (map (λ e. e.1) (services_by_id c macos rt))
      ∙ all-values (is_served rt.engine) (services_by_id c macos rt)
      ∙ add_services-AllServed rt.engine rt.settings.providers rt.settings.services
          (add_providers c macos rt.engine rt.settings.providers [])
          (add_providers-AllServed rt.engine rt.settings.providers [] own refl)
