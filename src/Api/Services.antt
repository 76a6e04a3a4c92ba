-- ===== src/Api/Services.antt =====
-- What the routes call: the `api_` methods of packages/runtime/rust/src/runtime.rs, over the services
-- of the engine.
use linguaray.Base.{ℕ, Option, none, some, List, ◌++◌, Text, codes}
use linguaray.Api.{
  EngineError, CapabilityError, Answer, success, failure, internal, from_engine_error,
  from_capability_error, unknown_provider, translation_not_supported, dictionary_not_supported,
}
use linguaray.Api.Requests.{
  TranslateRequest, LookUpRequest, translate_request, detect_language_request, lookup_request,
}

-- `serde_json::from_slice`: the value, or the text of the error
pub data Parsed {ℓ} (A : Type ℓ) : Type ℓ where
  parsed : A → Parsed A
  malformed : Text → Parsed A

-- What a service returns
pub data Served {ℓ} (A : Type ℓ) : Type ℓ where
  served : A → Served A
  unserved : CapabilityError → Served A

pub record TranslationService (T D P : Type 0) : Type 0 where
  pub translate : TranslateRequest → Served T
  pub detect_language : List Text → Served D
  pub get_supported_language_pairs : Served P

pub record Provider (T D L P : Type 0) : Type 0 where
  pub translation : Option (TranslationService T D P)
  -- `look_up`
  pub dictionary : Option (LookUpRequest → Served L)

-- What the server works with: the engine, the parsers of the bodies, the text of an error in
-- UTF-8, what is wrong with the OpenAPI file, and with the runtime of a request.
pub record Runtime (T D L P : Type 0) : Type 0 where
  pub providers : Text → Option (Provider T D L P)
  pub text_action : List ℕ → Parsed Text
  pub translate_body : List ℕ → Parsed TranslateRequest
  pub detect_body : List ℕ → Parsed (List Text)
  pub lookup_body : List ℕ → Parsed LookUpRequest
  pub utf8_error : List ℕ → Text
  pub openapi_error : Option Text
  pub build_error : Option Text

-- `map_err(Into::into)`
abbrev pub answer_of {ℓ} : {A : Type ℓ} → Served A → Answer A
answer_of (served a) = success a
answer_of (unserved e) = failure (from_capability_error e)

abbrev pub call_service {ℓ κ} :
    {A : Type ℓ} {S : Type κ} → EngineError → Option S → (S → Served A) → Answer A
call_service missing none call = failure (from_engine_error missing)
call_service missing (some service) call = answer_of (call service)

abbrev pub with_provider {ℓ} :
    {A : Type ℓ} {T D L P : Type 0}
    → Text
    → Option (Provider T D L P)
    → (Provider T D L P → Answer A)
    → Answer A
with_provider id none use_provider = failure (from_engine_error (unknown_provider id))
with_provider id (some provider) use_provider = use_provider provider

-- `?` on a request
abbrev pub and_then {ℓ κ} : {A : Type ℓ} {B : Type κ} → Answer A → (A → Answer B) → Answer B
and_then (failure e) next = failure e
and_then (success a) next = next a

abbrev pub build_or {ℓ} : {A : Type ℓ} → Option Text → Answer A → Answer A
build_or none a = a
build_or (some error) a =
    failure (
      internal (codes "INTERNAL_RUNTIME_ERROR")
        (codes "failed to build request runtime: " ++ error))

module _ {T D L P : Type 0} (runtime : Runtime T D L P) where
  abbrev pub with_translation {ℓ} :
      {A : Type ℓ} → Text → (TranslationService T D P → Served A) → Answer A
  with_translation id call =
      with_provider id (runtime.providers id)
        (λ provider. call_service (translation_not_supported id) provider.translation call)

  abbrev pub api_translate : Text → TranslateRequest → Answer T
  api_translate id request =
      and_then (translate_request request)
        (λ clean. with_translation id (λ service. service.translate clean))

  abbrev pub api_detect_language : Text → List Text → Answer D
  api_detect_language id request =
      and_then (detect_language_request request)
        (λ clean. with_translation id (λ service. service.detect_language clean))

  abbrev pub api_supported_language_pairs : Text → Answer P
  api_supported_language_pairs id =
      with_translation id (λ service. service.get_supported_language_pairs)

  abbrev pub api_lookup : Text → LookUpRequest → Answer L
  api_lookup id request = and_then (lookup_request request) (λ clean.
      with_provider id (runtime.providers id) (λ provider.
        call_service (dictionary_not_supported id) provider.dictionary (λ look_up. look_up clean)))

  -- `block_on_api`
  abbrev pub block_on_api {ℓ} : {A : Type ℓ} → Answer A → Answer A
  block_on_api a = build_or runtime.build_error a
