-- ===== src/Settings/Listing.antt =====
-- The methods of `RuntimeSettings` in packages/runtime/rust/src/runtime/settings_api.rs that read the
-- settings, and `service_entry_for_provider_type` of runtime/translation_support.rs.
pub mod Served
use linguaray.Base.{
  ℕ, suc, Bool, true, false, ◌&&◌, ◌||◌, ◌-◌, ◌^◌, Option, none, some, List, [], ◌∷◌, ◌++◌, codes,
  if◌then◌else◌, ltb, ◌==◌, map, retain, Text, same, le_text,
}
use linguaray.Base.Maps.{HashMap, get, insert, contains_key}
use linguaray.Base.Sort.{sort_by}
use linguaray.Errors.{Result, ok, err}
use linguaray.Engine.{Registry, require}
use linguaray.Services.{lt_time, same_time, effective_translation_service_order}
use linguaray.Settings.{
  ProviderConfigEntry, ServiceConfigEntry, ServiceType, translation, dictionary, ocr, llm, Settings,
}
use linguaray.Settings.State.{Runtime}
use linguaray.Settings.Operations.{
  Capabilities, validate_provider_id, normalized_provider_entry, provider_supports_service,
  advertises_system_capability, is_translation,
}

unfoldable pub service_type_rank : ServiceType → ℕ
service_type_rank translation = 0
service_type_rank dictionary = 1
service_type_rank ocr = 2
service_type_rank llm = 3

unfoldable pub service_entry_for_provider_type :
    Text → ProviderConfigEntry → ServiceType → ServiceConfigEntry
service_entry_for_provider_type id p kind = record {
  id = id;
  provider_id = p.id;
  kind = kind;
  name = p.id;
  fields = [];
  created_at = p.created_at;
}

unfoldable pub list_providers : Settings → List ProviderConfigEntry
list_providers s = map (λ e. normalized_provider_entry e.0 e.1) s.providers

abbrev pub normalized_at : Text → Option ProviderConfigEntry → Option ProviderConfigEntry
normalized_at id none = none
normalized_at id (some p) = some (normalized_provider_entry id p)

unfoldable pub get_provider : Text → Settings → Result (Option ProviderConfigEntry)
get_provider id s = elim (validate_provider_id id) [
  | err e ↦ err e
  | ok id' ↦ ok (normalized_at id' (get id' s.providers))
]

module _ {P : Type 0} (c : Capabilities P) (macos : Bool) where
  -- Both tests of the listing
  unfoldable pub is_offered : Text → P → ServiceType → Bool
  is_offered id p kind =
      provider_supports_service c p kind && advertises_system_capability macos id kind

  -- A service that comes with a provider
  unfoldable pub add_implicit :
      Text
      → P
      → ProviderConfigEntry
      → Text
      → ServiceType
      → HashMap ServiceConfigEntry
      → HashMap ServiceConfigEntry
  add_implicit id p entry suffix kind by_id =
      let service = service_entry_for_provider_type (id ++ suffix) entry kind in
      if is_offered id p kind then insert service.id service by_id else by_id

  unfoldable pub add_provider :
      Registry P
      → Text × ProviderConfigEntry
      → HashMap ServiceConfigEntry
      → HashMap ServiceConfigEntry
  add_provider engine (id, provider) by_id =
      let entry = normalized_provider_entry id provider in
      elim (require id engine) [
        | err _ ↦ by_id
        | ok p ↦ add_implicit id p entry (codes "+ocr") ocr (
            add_implicit id p entry (codes "+translation") translation
              (add_implicit id p entry (codes "+dictionary") dictionary by_id))
      ]

  unfoldable pub add_providers :
      Registry P
      → HashMap ProviderConfigEntry
      → HashMap ServiceConfigEntry
      → HashMap ServiceConfigEntry
  add_providers engine [] by_id = by_id
  add_providers engine (e ∷ es) by_id = add_providers engine es (add_provider engine e by_id)

  -- A service of the settings takes the place of one that comes with a provider.
  unfoldable pub add_service :
      HashMap ProviderConfigEntry
      → Registry P
      → Text × ServiceConfigEntry
      → HashMap ServiceConfigEntry
      → HashMap ServiceConfigEntry
  add_service providers engine (id, service) by_id =
      if contains_key service.provider_id providers
      then elim (require service.provider_id engine) [
        | err _ ↦ by_id
        | ok p ↦
            if is_offered service.provider_id p service.kind
            then insert id (record service { id = id }) by_id
            else by_id
      ]
      else by_id

  unfoldable pub add_services :
      HashMap ProviderConfigEntry
      → Registry P
      → HashMap ServiceConfigEntry
      → HashMap ServiceConfigEntry
      → HashMap ServiceConfigEntry
  add_services providers engine [] by_id = by_id
  add_services providers engine (e ∷ es) by_id =
      add_services providers engine es (add_service providers engine e by_id)

-- `usize::MAX`
abbrev pub usize_max : ℕ
usize_max = 2 ^ 64 - 1

-- `iter().position(..).unwrap_or(usize::MAX)`, from the place that is given
unfoldable pub rank_from : ℕ → Text → List Text → ℕ
rank_from i id [] = usize_max
rank_from i id (x ∷ xs) = let rest = rank_from (suc i) id xs in if same x id then i else rest

unfoldable pub translation_rank : List Text → ServiceConfigEntry → ℕ
translation_rank order s = if is_translation s.kind then rank_from 0 s.id order else usize_max

-- `cmp(a, b) != Greater` of the chain of comparisons
unfoldable pub service_order : List Text → ServiceConfigEntry → ServiceConfigEntry → Bool
service_order order a b =
    ltb (translation_rank order a) (translation_rank order b)
    || (translation_rank order a == translation_rank order b
        && (ltb (service_type_rank a.kind) (service_type_rank b.kind)
            || (service_type_rank a.kind == service_type_rank b.kind
                && (lt_time a.created_at b.created_at
                    || (same_time a.created_at b.created_at && le_text a.id b.id)))))

abbrev pub created_at_map : List ServiceConfigEntry → HashMap (Option ℕ) → HashMap (Option ℕ)
created_at_map [] times = times
created_at_map (s ∷ ss) times = created_at_map ss (insert s.id s.created_at times)

-- `get(id).copied().flatten()`
abbrev pub time_at : HashMap (Option ℕ) → Text → Option ℕ
time_at times id = elim (get id times) [ none ↦ none | some t ↦ t ]

abbrev pub translation_ids : List ServiceConfigEntry → List Text
translation_ids services = map (λ s. s.id) (retain (λ s. is_translation s.kind) services)

unfoldable pub sorted_services : List Text → List ServiceConfigEntry → List ServiceConfigEntry
sorted_services stored services =
    sort_by
      (service_order (
        effective_translation_service_order stored (translation_ids services)
          (time_at (created_at_map services []))))
      services

module _ {P : Type 0} (c : Capabilities P) (macos : Bool) where
  unfoldable pub services_by_id : Runtime P → HashMap ServiceConfigEntry
  services_by_id rt =
      add_services c macos rt.settings.providers rt.engine rt.settings.services
        (add_providers c macos rt.engine rt.settings.providers [])

  unfoldable pub list_services : Runtime P → List ServiceConfigEntry
  unfolding services_by_id sorted_services
  list_services rt =
      sorted_services rt.settings.general.translation_service_order
        (map (λ e. e.1) (services_by_id rt))

  abbrev pub first_type : P → Option ServiceType
  first_type p =
      if c.has_translation p || c.has_llm p
      then some translation
      else if c.has_dictionary p
      then some dictionary
      else if c.has_ocr p
      then some ocr
      else none

  abbrev pub implied : Text → ProviderConfigEntry → Option ServiceType → Option ServiceConfigEntry
  implied id entry none = none
  implied id entry (some kind) = some (service_entry_for_provider_type id entry kind)

  abbrev pub type_at : Result P → Option ServiceType
  type_at (ok p) = first_type p
  type_at (err e) = none

  abbrev pub implied_service : Text → Runtime P → Option ServiceConfigEntry
  implied_service id rt = elim (get id rt.settings.providers) [
    | none ↦ none
    | some p ↦ implied id (normalized_provider_entry id p) (type_at (require id rt.engine))
  ]

  unfoldable pub get_service : Text → Runtime P → Result (Option ServiceConfigEntry)
  get_service id rt = elim (validate_provider_id id) [
    | err e ↦ err e
    | ok id' ↦ elim (get id' rt.settings.services) [
      | some service ↦ ok (some (record service { id = id' }))
      | none ↦ ok (implied_service id' rt)
    ]
  ]
