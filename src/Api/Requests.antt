-- ===== src/Api/Requests.antt =====
-- `crates/api-core/src/normalization.rs` and `handlers.rs`: what the routes make of a request.
use linguaray.Base.{
  Option, none, some, List, [], map, retain, not, if◌then◌else◌, is_empty, Text, codes, trim,
  trim_end_matches, ascii_lower, same, ◌==◌,
}
use linguaray.Api.{ApiError, Answer, success, failure, bad_request}

unfoldable pub required_language : Text → Text
unfolding trim ascii_lower
required_language value = map ascii_lower (trim value)

unfoldable pub optional_language : Option Text → Option Text
unfolding required_language
optional_language none = none
optional_language (some value) =
    if is_empty (required_language value) then none else some (required_language value)

unfoldable pub path_prefix : Text → Text
unfolding trim_end_matches same
path_prefix path =
    let trimmed = trim_end_matches (λ c. c == b'/') path in
    if same trimmed (codes "/") then [] else trimmed

pub record TranslateRequest : Type 0 where
  pub source_language : Option Text
  pub target_language : Option Text
  pub content : Text

pub record LookUpRequest : Type 0 where
  pub source_language : Text
  pub target_language : Text
  pub word : Text

abbrev pub required : Text → ApiError
required message = bad_request (codes "INVALID_REQUEST") message

unfoldable pub translate_request : TranslateRequest → Answer TranslateRequest
unfolding trim optional_language
translate_request r =
    if is_empty (trim r.content)
    then failure (required (codes "`text` is required"))
    else success (record {
      source_language = optional_language r.source_language;
      target_language = optional_language r.target_language;
      content = trim r.content;
    })

-- The request is its list of texts.
unfoldable pub detect_language_request : List Text → Answer (List Text)
unfolding trim
detect_language_request texts =
    let kept = retain (λ t. not (is_empty t)) (map trim texts) in
    if is_empty kept
    then failure (required (codes "`texts` must contain at least one non-empty item"))
    else success kept

unfoldable pub lookup_request : LookUpRequest → Answer LookUpRequest
unfolding trim required_language
lookup_request r =
    if is_empty (trim r.word)
    then failure (required (codes "`word` is required"))
    else success (record {
      source_language = required_language r.source_language;
      target_language = required_language r.target_language;
      word = trim r.word;
    })
