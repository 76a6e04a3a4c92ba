-- ===== src/Urls.antt =====
-- `crates/engine/src/catalog/urls.rs`: the joining of URLs and the candidates for the listing of
-- models; the redaction of secrets is in Urls/Redaction.
use linguaray.Base.{
  ℕ, zero, suc, ◌+◌, ◌-◌, Bool, true, false, not, ◌&&◌, ◌||◌, Option, none, some, List, [], ◌∷◌,
  ◌++◌, map, leb, if◌then◌else◌, is_empty, any, all, length, drop, take, Text, codes, same,
  starts_with, ends_with, trim, trim_end_matches, ascii_lower, ◌==◌,
}
pub mod Redaction
mod Redacted
mod Candidates
mod Tests

-- `trim_end_matches` of a text; `fuel` is its length.
unfoldable pub trim_end_text : ℕ → Text → Text → Text
unfolding ends_with
trim_end_text zero suffix s = s
trim_end_text (suc fuel) suffix s =
    let rest = trim_end_text fuel suffix (take (length s - length suffix) s) in
    if ends_with s suffix then rest else s

-- What follows the last place of a text that is not empty: `rfind`
unfoldable pub after_last : Text → Text → Option Text
unfolding starts_with
after_last needle [] = none
after_last needle (c ∷ s) = elim (after_last needle s) [
  | some rest ↦ some rest
  | none ↦ if starts_with (c ∷ s) needle then some (drop (length needle) (c ∷ s)) else none
]

unfoldable pub skip_while : (ℕ → Bool) → Text → Text
skip_while p [] = []
skip_while p (c ∷ s) = let rest = skip_while p s in if p c then rest else c ∷ s

abbrev pub is_digit : ℕ → Bool
is_digit c = leb b'0' c && leb c b'9'

abbrev pub is_lowercase : ℕ → Bool
is_lowercase c = leb b'a' c && leb c b'z'

abbrev pub without_slashes : Text → Text
without_slashes s = trim_end_matches (λ c. c == b'/') s

unfoldable pub join_openai_path : Text → Text → Text
unfolding trim trim_end_matches trim_end_text starts_with ends_with
join_openai_path base_url path =
    let base = without_slashes (trim base_url) in
    let path' = if starts_with path (codes "/") then path else codes "/" ++ path in
    if ends_with base (codes "/v1") && starts_with path' (codes "/v1/")
    then trim_end_text (length base) (codes "/v1") base ++ path'
    else base ++ path'

unfoldable pub has_api_version_suffix : Text → Bool
unfolding ends_with after_last skip_while ascii_lower
has_api_version_suffix base =
    let lower = map ascii_lower base in
    if ends_with lower (codes "/openai") then true else elim (after_last (codes "/v") lower) [
      | none ↦ false
      | some [] ↦ false
      | some (c ∷ rest) ↦ if is_digit c then all is_lowercase (skip_while is_digit rest) else false
    ]

-- The API root with a version, under which the paths of the endpoints stand.
abbrev pub endpoint : Text → Text → Text
endpoint base path =
    if has_api_version_suffix base then base ++ path else base ++ codes "/v1" ++ path

unfoldable pub openai_chat_completions_url : Text → Text
unfolding trim trim_end_matches has_api_version_suffix
openai_chat_completions_url base_url =
    endpoint (without_slashes (trim base_url)) (codes "/chat/completions")

unfoldable pub openai_models_url : Text → Text
unfolding trim trim_end_matches has_api_version_suffix
openai_models_url base_url = endpoint (without_slashes (trim base_url)) (codes "/models")

abbrev pub compat_suffixes : List Text
compat_suffixes =
    codes "/api/claudecode"
    ∷ codes "/api/anthropic"
    ∷ codes "/apps/anthropic"
    ∷ codes "/api/coding"
    ∷ codes "/claudecode"
    ∷ codes "/anthropic"
    ∷ codes "/step_plan"
    ∷ codes "/coding"
    ∷ codes "/claude"
    ∷ []

-- Lowering keeps the length, so the place in the lowered text is the place in the text.
unfoldable pub truncate_at_v1 : Text → Option Text
unfolding starts_with ascii_lower
truncate_at_v1 [] = none
truncate_at_v1 (c ∷ s) =
    let rest = truncate_at_v1 s in
    if starts_with (map ascii_lower (c ∷ s)) (codes "/v1/")
    then some (take 3 (c ∷ s))
    else elim rest [ none ↦ none | some r ↦ some (c ∷ r) ]

unfoldable pub strip_suffix_ci : Text → Text → Option Text
unfolding ends_with ascii_lower
strip_suffix_ci value suffix =
    if ends_with (map ascii_lower value) (map ascii_lower suffix)
    then some (take (length value - length suffix) value)
    else none

unfoldable pub push_unique : List Text → Option Text → List Text
unfolding same
push_unique out none = out
push_unique out (some candidate) =
    if is_empty candidate
    then out
    else if any (λ existing. same existing candidate) out
    then out
    else out ++ candidate ∷ []

-- The candidates of one root: its models, and those of the root up to `/v1`.
abbrev pub v1_models : Option Text → Option Text
v1_models none = none
v1_models (some v1) = some (v1 ++ codes "/models")

unfoldable pub push_root : List Text → Text → List Text
unfolding push_unique truncate_at_v1 has_api_version_suffix
push_root out root =
    push_unique (push_unique out (some (endpoint root (codes "/models"))))
      (v1_models (truncate_at_v1 root))

abbrev pub push_stripped : List Text → Option Text → List Text
push_stripped out none = out
push_stripped out (some stripped) =
    let root = without_slashes stripped in if is_empty root then out else push_root out root

-- The loop over the suffixes of gateways
unfoldable pub push_compat : Text → List Text → List Text → List Text
unfolding push_root strip_suffix_ci trim_end_matches
push_compat trimmed [] out = out
push_compat trimmed (suffix ∷ suffixes) out =
    push_compat trimmed suffixes (push_stripped out (strip_suffix_ci trimmed suffix))

-- `map(str::trim).filter(|s| !s.is_empty())`
abbrev pub explicit_url : Option Text → Option Text
explicit_url none = none
explicit_url (some url) = if is_empty (trim url) then none else some (trim url)

unfoldable pub candidates_of : Text → Option Text → List Text
unfolding push_compat push_root
candidates_of base (some explicit) = push_unique [] (some explicit)
candidates_of base none =
    let trimmed = without_slashes base in
    if is_empty base then [] else push_compat trimmed compat_suffixes (push_root [] trimmed)

unfoldable pub model_discovery_candidates : Text → Option Text → List Text
unfolding trim candidates_of
model_discovery_candidates base_url models_url =
    candidates_of (trim base_url) (explicit_url models_url)
