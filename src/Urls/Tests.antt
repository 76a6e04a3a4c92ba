-- ===== src/Urls/Tests.antt =====
-- Runs of the URLs and of the redaction, and their theorems at concrete texts.
use linguaray.Base.{
  ◌≤◌, ◌≡◌, refl, true, false, none, [], ◌∷◌, ◌++◌, is_empty, length, Text, codes, trim, trim_start,
  trim_end, trim_end_matches, same, starts_with, ends_with, ascii_lower, is_white,
}
use linguaray.Urls.{
  join_openai_path, trim_end_text, has_api_version_suffix, after_last, skip_while,
  openai_models_url, model_discovery_candidates, candidates_of, push_compat, push_root, push_unique,
  truncate_at_v1, strip_suffix_ci,
}
use linguaray.Urls.Redaction.{
  redact_bearer, redact_secrets, redact_query_key, query_loop, split_first, replace_secrets,
  replace, bearer_loop, names_token, truncate_error_body, body_limit,
}
use linguaray.Urls.Redacted.{
  Hides, Redacted, Tokenless, redact_bearer_lem, redact_bearer-leaks, truncate_error_body_lem,
}
use linguaray.Urls.Candidates.{StartsWith, model_discovery_candidates_lem}

joined : join_openai_path (codes "https://h/v1/") (codes "/v1/chat") ≡ codes "https://h/v1/chat"
unfolding join_openai_path trim trim_start trim_end trim_end_matches is_white trim_end_text
    starts_with ends_with same
joined = refl

-- A path `/v1` without a slash behind it is appended as it is.
joined_twice : join_openai_path (codes "https://h/v1") (codes "/v1") ≡ codes "https://h/v1/v1"
unfolding join_openai_path trim trim_start trim_end trim_end_matches is_white trim_end_text
    starts_with ends_with same
joined_twice = refl

versions :
    (has_api_version_suffix (codes "https://h/v1beta") ≡ true)
    × (has_api_version_suffix (codes "https://h/openai") ≡ true)
    × (has_api_version_suffix (codes "https://h/view") ≡ false)
unfolding has_api_version_suffix after_last skip_while starts_with ends_with same ascii_lower
versions = (refl, refl, refl)

gateway :
    model_discovery_candidates (codes "https://h/v1/anthropic") none
    ≡ codes "https://h/v1/anthropic/v1/models" ∷ codes "https://h/v1/models" ∷ []
unfolding model_discovery_candidates candidates_of push_compat push_root push_unique truncate_at_v1
    strip_suffix_ci has_api_version_suffix after_last skip_while trim trim_start trim_end
    trim_end_matches is_white starts_with ends_with same ascii_lower
gateway = refl

secrets_hidden :
    redact_secrets (codes "u?api_key=abcdef&x Bearer tok") (codes "tok" ∷ codes "abcdef" ∷ [])
    ≡ codes "u?api_key=[redacted]&x Bearer [redacted]"
unfolding redact_secrets replace_secrets replace redact_bearer bearer_loop names_token
    redact_query_key query_loop split_first skip_while starts_with ascii_lower trim trim_start
    trim_end is_white
secrets_hidden = refl

redact_bearer_lem_example :
    Hides (codes "a BEARER tok") (redact_bearer (codes "a BEARER tok"))
    × Redacted (redact_bearer (codes "a BEARER tok"))
    × (Tokenless (codes "a BEARER tok")
        → redact_bearer (codes "a BEARER tok") ≡ codes "a BEARER tok")
redact_bearer_lem_example = redact_bearer_lem (codes "a BEARER tok")

key-Tokenless : Tokenless (codes " key")
unfolding names_token starts_with ascii_lower
key-Tokenless = (refl, (refl, (refl, (refl, tt))))

redact_bearer-leaks_example : redact_bearer (codes "Bearer  key") ≡ codes "Bearer [redacted] key"
redact_bearer-leaks_example = redact_bearer-leaks (codes "key") key-Tokenless

truncate_error_body_lem_example :
    (length (truncate_error_body (codes "oops")) ≤ body_limit)
    × ((rest : Text) × (codes "oops" ≡ truncate_error_body (codes "oops") ++ rest))
    × (length (codes "oops") ≤ body_limit → truncate_error_body (codes "oops") ≡ codes "oops")
truncate_error_body_lem_example = truncate_error_body_lem (codes "oops")

solid_url : is_empty (trim (codes "https://h")) ≡ false
unfolding trim trim_start trim_end is_white
solid_url = refl

model_discovery_candidates_lem_example :
    StartsWith
      (openai_models_url (codes "https://h"))
      (model_discovery_candidates (codes "https://h") none)
model_discovery_candidates_lem_example =
    (model_discovery_candidates_lem (codes "https://h") none).3 refl solid_url
