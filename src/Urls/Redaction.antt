-- ===== src/Urls/Redaction.antt =====
-- The redaction of secrets and the truncation of error bodies.
use linguaray.Base.{
  ℕ, zero, suc, ◌+◌, Bool, true, false, not, ◌&&◌, ◌||◌, Option, none, some, List, [], ◌∷◌, ◌++◌,
  map, leb, ltb, if◌then◌else◌, length, drop, take, Text, codes, starts_with, trim, ascii_lower,
  utf8_len, ◌==◌,
}
use linguaray.Urls.{skip_while}

abbrev pub redacted : Text
redacted = codes "[redacted]"

-- `str::len`
abbrev pub byte_length : Text → ℕ
byte_length [] = 0
byte_length (c ∷ s) = utf8_len c + byte_length s

-- `str::replace` of a text that is not empty; `fuel` is the length.
unfoldable pub replace : ℕ → Text → Text → Text → Text
unfolding starts_with
replace zero pattern by s = s
replace (suc fuel) pattern by [] = []
replace (suc fuel) pattern by (c ∷ s) = elim (starts_with (c ∷ s) pattern) [
  | true ↦ by ++ replace fuel pattern by (drop (length pattern) (c ∷ s))
  | false ↦ c ∷ replace fuel pattern by s
]

abbrev pub bearer : Text
bearer = codes "bearer "

-- A byte of a token: neither `is_ascii_whitespace` nor a quote
abbrev pub is_token : ℕ → Bool
is_token c =
    not (c == 9 || c == 10 || c == 12 || c == 13 || c == 32) && not (c == 34) && not (c == 39)

-- The word `bearer` and a space, in any case, stand at the front: `lower[i..].strip_prefix`
unfoldable pub names_token : Text → Bool
unfolding starts_with ascii_lower
names_token s = starts_with (map ascii_lower s) bearer

unfoldable pub bearer_loop : ℕ → Text → Text
unfolding names_token skip_while
bearer_loop zero text = []
bearer_loop (suc fuel) [] = []
bearer_loop (suc fuel) (c ∷ s) = elim (names_token (c ∷ s)) [
  | true ↦ codes "Bearer " ++ redacted ++ bearer_loop fuel (skip_while is_token (drop 7 (c ∷ s)))
  | false ↦ c ∷ bearer_loop fuel s
]

unfoldable pub redact_bearer : Text → Text
unfolding bearer_loop
redact_bearer text = bearer_loop (length text) text

-- A byte of a value in a query
abbrev pub is_value : ℕ → Bool
is_value c = not (c == 38) && not (c == 32) && not (c == 34) && not (c == 39)

-- What stands before the first place of a text, and what follows it: `find`
unfoldable pub split_first : Text → Text → Option (Text × Text)
unfolding starts_with
split_first needle [] = none
split_first needle (c ∷ s) =
    let rest = split_first needle s in
    if starts_with (c ∷ s) needle
    then some ([], drop (length needle) (c ∷ s))
    else elim rest [ none ↦ none | some r ↦ some (c ∷ r.0, r.1) ]

unfoldable pub query_loop : ℕ → Text → Text → Text
unfolding split_first skip_while
query_loop zero needle rest = rest
query_loop (suc fuel) needle rest = elim (split_first needle rest) [
  | none ↦ rest
  | some found ↦
      found.0 ++ needle ++ redacted ++ query_loop fuel needle (skip_while is_value found.1)
]

unfoldable pub redact_query_key : Text → Text → Text
unfolding query_loop
redact_query_key text key = query_loop (length text) (key ++ codes "=") text

-- The loop over the secrets: one of fewer than four bytes is passed over.
unfoldable pub replace_secrets : Text → List Text → Text
unfolding replace trim
replace_secrets out [] = out
replace_secrets out (secret ∷ secrets) =
    let secret' = trim secret in
    replace_secrets
      (if ltb (byte_length secret') 4 then out else replace (length out) secret' redacted out)
      secrets

unfoldable pub redact_secrets : Text → List Text → Text
unfolding replace_secrets redact_bearer redact_query_key
redact_secrets text secrets =
    let out = redact_bearer (replace_secrets text secrets) in
    redact_query_key (redact_query_key (redact_query_key out (codes "key")) (codes "api_key"))
      (codes "apiKey")

abbrev pub body_limit : ℕ
body_limit = 512

unfoldable pub truncate_error_body : Text → Text
truncate_error_body body = if leb (length body) body_limit then body else take body_limit body
