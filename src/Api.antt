-- ===== src/Api.antt =====
-- `packages/runtime/rust/src/api_server.rs`, the HTTP server for other programs on this machine,
-- over `crates/api-core`: the errors of the answers are here, the requests in the child modules.
use linguaray.Base.{
  ℕ, Bool, Option, none, some, List, [], ◌∷◌, ◌++◌, if◌then◌else◌, leb, ◌&&◌, ◌||◌, ◌==◌, Text,
  codes,
}
pub mod Requests
pub mod Reading
pub mod Services
pub mod Routes
pub mod Server
mod Chunks
mod Assembly
mod Actions
mod Answers
mod Honesty
mod Tests

-- `ErrorBody` with its status: `ApiError`
pub record ApiError : Type 0 where
  pub status : ℕ
  pub code : Text
  pub message : Text
  pub provider : Option Text

pub data Answer {ℓ} (A : Type ℓ) : Type ℓ where
  success : A → Answer A
  failure : ApiError → Answer A

abbrev pub new_error : ℕ → Text → Text → ApiError
new_error status code message = record {
  status = status;
  code = code;
  message = message;
  provider = none;
}

abbrev pub bad_request : Text → Text → ApiError
bad_request code message = new_error 400 code message

abbrev pub internal : Text → Text → ApiError
internal code message = new_error 500 code message

abbrev pub not_found : Text → ApiError
not_found message = new_error 404 (codes "NOT_FOUND") message

abbrev pub method_not_allowed : Text → ApiError
method_not_allowed message = new_error 405 (codes "METHOD_NOT_ALLOWED") message

-- The texts of the causes are those of the crates that report them.
pub data EngineError : Type 0 where
  read_config_file : Text → Text → EngineError
  parse_config : Text → EngineError
  unknown_provider provider_not_enabled : Text → EngineError
  invalid_provider_config config_validation_failed : Text → Text → EngineError
  translation_not_supported dictionary_not_supported ocr_not_supported llm_not_supported :
      Text → EngineError

-- `#[error(..)]` of `EngineError`
unfoldable pub display : EngineError → Text
display (read_config_file path source) =
    codes "failed to read config file `" ++ path ++ codes "`: " ++ source
display (parse_config source) = codes "failed to parse config yaml: " ++ source
display (unknown_provider name) = codes "provider `" ++ name ++ codes "` is not supported"
display (provider_not_enabled name) =
    codes "provider `" ++ name ++ codes "` is not enabled in this build"
display (invalid_provider_config provider source) =
    codes "provider `" ++ provider ++ codes "` config is invalid: " ++ source
display (config_validation_failed provider reason) =
    codes "provider `" ++ provider ++ codes "` config validation failed: " ++ reason
display (translation_not_supported name) =
    codes "provider `" ++ name ++ codes "` does not support translation"
display (dictionary_not_supported name) =
    codes "provider `" ++ name ++ codes "` does not support dictionary lookup"
display (ocr_not_supported name) = codes "provider `" ++ name ++ codes "` does not support ocr"
display (llm_not_supported name) = codes "provider `" ++ name ++ codes "` does not support llm"

abbrev unsupported : Text → ApiError
unsupported name = bad_request (codes "INVALID_PROVIDER") (codes "Unsupported provider: " ++ name)

abbrev no_service : Text → ApiError
no_service name =
    bad_request (codes "SERVICE_NOT_SUPPORTED")
      (codes "Provider `" ++ name ++ codes "` does not support this service")

abbrev bad_config : EngineError → ApiError
bad_config error =
    internal (codes "INTERNAL_CONFIG_ERROR")
      (codes "Failed to load provider config: " ++ display error)

unfoldable pub from_engine_error : EngineError → ApiError
unfolding display
from_engine_error (unknown_provider name) = unsupported name
from_engine_error (provider_not_enabled name) = unsupported name
from_engine_error (translation_not_supported name) = no_service name
from_engine_error (dictionary_not_supported name) = no_service name
from_engine_error (ocr_not_supported name) = no_service name
from_engine_error (llm_not_supported name) = no_service name
from_engine_error (read_config_file path source) = bad_config (read_config_file path source)
from_engine_error (parse_config source) = bad_config (parse_config source)
from_engine_error (invalid_provider_config provider source) =
    bad_config (invalid_provider_config provider source)
from_engine_error (config_validation_failed provider reason) =
    bad_config (config_validation_failed provider reason)

-- `TranslationError`, `DictionaryError` and `OcrError`, which one macro declares.
pub data CapabilityError : Type 0 where
  unsupported_method config_error auth_error rate_limit_error invalid_request network_error
        serialization_error :
      Text → CapabilityError

unfoldable pub from_http_status : Text → ℕ → Text → CapabilityError
from_http_status provider status message =
    if status == 401 || status == 403
    then auth_error message
    else if status == 429
    then rate_limit_error message
    else if leb 400 status && leb status 499
    then invalid_request message
    else network_error (provider ++ codes ": " ++ message)

-- `From<TranslationError>` and `From<DictionaryError>`
unfoldable pub from_capability_error : CapabilityError → ApiError
from_capability_error (unsupported_method method) =
    new_error 400 (codes "UNSUPPORTED_OPERATION") method
from_capability_error (config_error message) = new_error 500 (codes "INTERNAL_CONFIG_ERROR") message
from_capability_error (auth_error message) = new_error 401 (codes "PROVIDER_AUTH_ERROR") message
from_capability_error (rate_limit_error message) =
    new_error 429 (codes "PROVIDER_RATE_LIMIT") message
from_capability_error (invalid_request message) = new_error 400 (codes "INVALID_REQUEST") message
from_capability_error (network_error message) = new_error 502 (codes "NETWORK_ERROR") message
from_capability_error (serialization_error message) =
    new_error 502 (codes "PROVIDER_RESPONSE_INVALID") message
