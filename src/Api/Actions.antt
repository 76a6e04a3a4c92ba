-- ===== src/Api/Actions.antt =====
-- What the answers of `dispatch` can be.
use linguaray.Base.{
  ℕ, ◌≤◌, ◌≡◌, refl, true, false, Option, none, some, [], ◌∷◌, ◌==◌, is_empty, Text, codes, same,
  trim,
}
use linguaray.Urls.Redaction.{byte_length}
use linguaray.Api.{
  EngineError, CapabilityError, Answer, success, failure, from_engine_error, from_capability_error,
  unknown_provider, provider_not_enabled, read_config_file, parse_config, invalid_provider_config,
  config_validation_failed, translation_not_supported, dictionary_not_supported, ocr_not_supported,
  llm_not_supported, unsupported_method, config_error, auth_error, rate_limit_error,
  invalid_request, network_error, serialization_error,
}
use linguaray.Api.Services.{Served, served, unserved, answer_of}
use linguaray.Api.Routes.{reason_of}
use linguaray.Api.Server.{Answered, max_action_text_bytes}

-- A status that announces no action, and whose reason phrase is OK only if it is 200.
abbrev pub IsPlain : ℕ → Type 0
IsPlain status =
    ((status == 202) ≡ false) × (same (reason_of status) (codes "OK") ≡ (status == 200))

-- A text that was trimmed, is not empty and has at most 32 KiB.
abbrev pub IsActionText : Option Text → Type 0
IsActionText none = Unit
IsActionText (some text) =
    (trim text ≡ text) × (is_empty text ≡ false) × (byte_length text ≤ max_action_text_bytes)

-- Without an action the status is plain; one action goes with 202, and there are never two.
abbrev pub IsHonest : {T D L P : Type 0} → Answered T D L P → Type 0
IsHonest (response, []) = IsPlain response.status
IsHonest (response, action ∷ []) = (response.status ≡ 202) × IsActionText action.content
IsHonest (response, action ∷ other ∷ more) = true ≡ false

pub from_engine_error-IsPlain : (e : EngineError) → IsPlain (from_engine_error e).status
unfolding from_engine_error reason_of same
from_engine_error-IsPlain (unknown_provider name) = (refl, refl)
from_engine_error-IsPlain (provider_not_enabled name) = (refl, refl)
from_engine_error-IsPlain (translation_not_supported name) = (refl, refl)
from_engine_error-IsPlain (dictionary_not_supported name) = (refl, refl)
from_engine_error-IsPlain (ocr_not_supported name) = (refl, refl)
from_engine_error-IsPlain (llm_not_supported name) = (refl, refl)
from_engine_error-IsPlain (read_config_file path source) = (refl, refl)
from_engine_error-IsPlain (parse_config source) = (refl, refl)
from_engine_error-IsPlain (invalid_provider_config provider source) = (refl, refl)
from_engine_error-IsPlain (config_validation_failed provider reason) = (refl, refl)

from_capability_error-IsPlain : (e : CapabilityError) → IsPlain (from_capability_error e).status
unfolding from_capability_error reason_of same
from_capability_error-IsPlain (unsupported_method method) = (refl, refl)
from_capability_error-IsPlain (config_error message) = (refl, refl)
from_capability_error-IsPlain (auth_error message) = (refl, refl)
from_capability_error-IsPlain (rate_limit_error message) = (refl, refl)
from_capability_error-IsPlain (invalid_request message) = (refl, refl)
from_capability_error-IsPlain (network_error message) = (refl, refl)
from_capability_error-IsPlain (serialization_error message) = (refl, refl)

-- The statuses that the server itself sets
pub IsPlain-200 : IsPlain 200
unfolding reason_of same
IsPlain-200 = (refl, refl)

pub IsPlain-204 : IsPlain 204
unfolding reason_of same
IsPlain-204 = (refl, refl)

pub IsPlain-400 : IsPlain 400
unfolding reason_of same
IsPlain-400 = (refl, refl)

pub IsPlain-404 : IsPlain 404
unfolding reason_of same
IsPlain-404 = (refl, refl)

pub IsPlain-405 : IsPlain 405
unfolding reason_of same
IsPlain-405 = (refl, refl)

pub IsPlain-500 : IsPlain 500
unfolding reason_of same
IsPlain-500 = (refl, refl)

-- The status of an error
abbrev pub FailsPlain {ℓ} : {A : Type ℓ} → Answer A → Type 0
FailsPlain (success a) = Unit
FailsPlain (failure e) = IsPlain e.status

pub answer_of-FailsPlain {ℓ} : {A : Type ℓ} (a : Served A) → FailsPlain (answer_of a)
answer_of-FailsPlain (served a) = tt
answer_of-FailsPlain (unserved e) = from_capability_error-IsPlain e
