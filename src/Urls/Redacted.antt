-- ===== src/Urls/Redacted.antt =====
-- After a redaction every bearer token is hidden, and a text without one is left alone.
use linguaray.Base.{
  any, if◌then◌else◌, ℕ, zero, suc, ◌≤◌, ◌≡◌, refl, sym, ap, ◌∙◌, inl, inr, Bool, true, false, not,
  [], ◌∷◌, ◌++◌, map, arith, leb, all, Bool-cases, length, drop, take, Text, codes, starts_with,
  ascii_lower, ◌==◌,
}
use linguaray.Urls.{skip_while}
use linguaray.Urls.Redaction.{
  redacted, is_token, names_token, bearer_loop, redact_bearer, truncate_error_body, body_limit,
}

-- Wherever a token is named, the redaction follows.
abbrev pub Redacted : Text → Type 0
Redacted [] = Unit
Redacted (c ∷ s) =
    (names_token (c ∷ s) ≡ true → starts_with (drop 7 (c ∷ s)) redacted ≡ true) × Redacted s

-- No token is named anywhere.
abbrev pub Tokenless : Text → Type 0
Tokenless [] = Unit
Tokenless (c ∷ s) = (names_token (c ∷ s) ≡ false) × Tokenless s

-- A blank or a quote
abbrev pub ends_token : ℕ → Bool
ends_token c = any (λ d. c == d) (9 ∷ 10 ∷ 12 ∷ 13 ∷ 32 ∷ 34 ∷ 39 ∷ [])

abbrev pub StopsAt : Text → Type 0
StopsAt [] = Unit
StopsAt (c ∷ s) = ends_token c ≡ true

-- The text that stands for another one in which each token has been hidden: the word bearer with
-- one blank, in any case, is written as `Bearer `, the token behind it, up to the next blank or
-- quote, as the redaction, and everything else as it is.
pub data Hides : Text → Text → Type 0 where
  nothing_left : Hides [] []
  copied :
      (c : ℕ) (s out : Text)
      → starts_with (map ascii_lower (c ∷ s)) (codes "bearer ") ≡ false
      → Hides s out
      → Hides (c ∷ s) (c ∷ out)
  hidden :
      (s word token rest out : Text)
      → s ≡ word ++ (token ++ rest)
      → map ascii_lower word ≡ codes "bearer "
      → all (λ c. not (ends_token c)) token ≡ true
      → StopsAt rest
      → Hides rest out
      → Hides s (codes "Bearer [redacted]" ++ out)

abbrev is_not_b : ℕ → Bool
is_not_b c = not (ascii_lower c == b'b')

-- A text without the letter that a name begins with can stand before a redacted text.
Redacted-append : (p s : Text) → all is_not_b p ≡ true → Redacted s → Redacted (p ++ s)
unfolding names_token starts_with
Redacted-append [] s h r = r
Redacted-append (c ∷ p) s h r =
    (λ named. absurd (ground arith), Redacted-append p s (ground arith) r)

-- What the loop goes on with after a token
abbrev after_token : Text → Text
after_token s = skip_while is_token (drop 7 s)

bearer_loop-hides :
    (fuel c : ℕ) (s : Text)
    → names_token (c ∷ s) ≡ true
    → bearer_loop (suc fuel) (c ∷ s)
      ≡ codes "Bearer " ++ redacted ++ bearer_loop fuel (after_token (c ∷ s))
unfolding bearer_loop
bearer_loop-hides fuel c s named = rw (named, bearer_loop) refl

bearer_loop-copies :
    (fuel c : ℕ) (s : Text)
    → names_token (c ∷ s) ≡ false
    → bearer_loop (suc fuel) (c ∷ s) ≡ c ∷ bearer_loop fuel s
unfolding bearer_loop
bearer_loop-copies fuel c s other = rw (other, bearer_loop) refl

-- What the loop gives begins with a text without that letter only if the source does.
starts_with-bearer_loop :
    (p : Text) (fuel : ℕ) (s : Text)
    → all is_not_b p ≡ true
    → starts_with (map ascii_lower (bearer_loop fuel s)) p ≡ true
    → starts_with (map ascii_lower s) p ≡ true
unfolding starts_with bearer_loop
starts_with-bearer_loop [] fuel s free h = refl
starts_with-bearer_loop (q ∷ p) zero s free h = absurd (ground arith)
starts_with-bearer_loop (q ∷ p) (suc fuel) [] free h = absurd (ground arith)
starts_with-bearer_loop (q ∷ p) (suc fuel) (c ∷ s) free h =
    elim (Bool-cases (names_token (c ∷ s))) [
      | inl named ↦ let hidden = rw (bearer_loop-hides fuel c s named) at h in absurd (ground arith)
      | inr other ↦
          let copied = rw (bearer_loop-copies fuel c s other) at h in
          ground (arith, starts_with-bearer_loop p fuel s)
    ]

names_token-copied :
    (fuel c : ℕ) (s : Text)
    → names_token (c ∷ s) ≡ false
    → names_token (c ∷ bearer_loop fuel s) ≡ false
unfolding names_token starts_with
names_token-copied fuel c s other =
    ground (arith, starts_with-bearer_loop (codes "earer ") fuel s refl)

Redacted-bearer_loop : (fuel : ℕ) (s : Text) → Redacted (bearer_loop fuel s)
unfolding bearer_loop
Redacted-bearer_loop zero s = tt
Redacted-bearer_loop (suc fuel) [] = tt
Redacted-bearer_loop (suc fuel) (c ∷ s) = elim (Bool-cases (names_token (c ∷ s))) [
  | inl named ↦ rw (bearer_loop-hides fuel c s named) (
    λ _. refl,
    Redacted-append (codes "earer " ++ redacted) (bearer_loop fuel (after_token (c ∷ s))) refl
        (Redacted-bearer_loop fuel (after_token (c ∷ s))),
  )
  | inr other ↦
      rw (bearer_loop-copies fuel c s other)
        (λ here. absurd (cc (here, names_token-copied fuel c s other)), Redacted-bearer_loop fuel s)
]

take-drop : (n : ℕ) (s : Text) → s ≡ take n s ++ drop n s
take-drop zero s = refl
take-drop (suc n) [] = refl
take-drop (suc n) (c ∷ s) = ap (λ t. c ∷ t) (take-drop n s)

-- The token at the front
abbrev token_of : Text → Text
token_of [] = []
token_of (c ∷ s) = let rest = token_of s in if is_token c then c ∷ rest else []

token_of-split : (s : Text) → s ≡ token_of s ++ skip_while is_token s
unfolding skip_while
token_of-split [] = refl
token_of-split (c ∷ s) = elim (Bool-cases (is_token c)) [
  | inl inside ↦ rw inside (ap (λ t. c ∷ t) (token_of-split s))
  | inr behind ↦ rw behind refl
]

token_is : (c : ℕ) → is_token c ≡ not (ends_token c)
token_is c = ground arith

all-token_of : (s : Text) → all (λ c. not (ends_token c)) (token_of s) ≡ true
all-token_of [] = refl
all-token_of (c ∷ s) = ground (arith, token_is c, all-token_of s)

skip_while-StopsAt : (s : Text) → StopsAt (skip_while is_token s)
unfolding skip_while
skip_while-StopsAt [] = tt
skip_while-StopsAt (c ∷ s) = elim (Bool-cases (is_token c)) [
  | inl inside ↦ rw inside (skip_while-StopsAt s)
  | inr behind ↦ rw behind (ground (arith, token_is c))
]

length-skip_while : (s : Text) → length (skip_while is_token s) ≤ length s
unfolding skip_while
length-skip_while [] = ground arith
length-skip_while (c ∷ s) = ground (arith, length-skip_while s)

length-drop : (n : ℕ) (s : Text) → length (drop n s) ≤ length s
length-drop zero s = ground arith
length-drop (suc n) [] = ground arith
length-drop (suc n) (c ∷ s) = ground (arith, length-drop n s)

lower-take :
    (p s : Text)
    → starts_with (map ascii_lower s) p ≡ true
    → map ascii_lower (take (length p) s) ≡ p
unfolding starts_with
lower-take [] s h = refl
lower-take (d ∷ p) [] h = absurd (ground arith)
lower-take (d ∷ p) (c ∷ s) h = ground (arith, lower-take p s)

bearer_loop-Hides : (fuel : ℕ) (s : Text) → length s ≤ fuel → Hides s (bearer_loop fuel s)
unfolding bearer_loop names_token
bearer_loop-Hides zero [] few = nothing_left
bearer_loop-Hides zero (c ∷ s) few = absurd (ground arith)
bearer_loop-Hides (suc fuel) [] few = nothing_left
bearer_loop-Hides (suc fuel) (c ∷ s) few = elim (Bool-cases (names_token (c ∷ s))) [
  | inl named ↦
      let behind = drop 7 (c ∷ s) in
      rw (bearer_loop-hides fuel c s named) (
        hidden (c ∷ s) (take 7 (c ∷ s)) (token_of behind) (after_token (c ∷ s))
          (bearer_loop fuel (after_token (c ∷ s)))
          (take-drop 7 (c ∷ s) ∙ ap (λ t. take 7 (c ∷ s) ++ t) (token_of-split behind))
          (lower-take (codes "bearer ") (c ∷ s) named) (all-token_of behind)
          (skip_while-StopsAt behind)
          (bearer_loop-Hides fuel (after_token (c ∷ s))
            (ground (arith, length-skip_while behind, length-drop 6 s))))
  | inr other ↦
      rw (bearer_loop-copies fuel c s other)
        (copied c s (bearer_loop fuel s) other (bearer_loop-Hides fuel s (ground arith)))
]

bearer_loop-Tokenless :
    (fuel : ℕ) (s : Text) → length s ≤ fuel → Tokenless s → bearer_loop fuel s ≡ s
unfolding bearer_loop
bearer_loop-Tokenless zero [] few free = refl
bearer_loop-Tokenless zero (c ∷ s) few free = absurd (ground arith)
bearer_loop-Tokenless (suc fuel) [] few free = refl
bearer_loop-Tokenless (suc fuel) (c ∷ s) few (here, free) =
    bearer_loop-copies fuel c s here
    ∙ ap (λ t. c ∷ t) (bearer_loop-Tokenless fuel s (ground arith) free)

-- What redact_bearer gives is the text with each bearer token hidden: the word bearer with one
-- blank, in any case, comes out as `Bearer `, what stands behind it, up to the next blank or quote,
-- as the redaction, and everything else as it is; so the redaction follows wherever the result
-- names a token, and a text that names none is left alone.
pub redact_bearer_lem :
    (text : Text)
    → Hides text (redact_bearer text)
      × Redacted (redact_bearer text)
      × (Tokenless text → redact_bearer text ≡ text)
unfolding redact_bearer
redact_bearer_lem text = (
  bearer_loop-Hides (length text) text (ground arith),
  Redacted-bearer_loop (length text) text,
  bearer_loop-Tokenless (length text) text (ground arith),
)

-- Between two blanks there is no token to hide, so the token after the second blank stays.
pub redact_bearer-leaks :
    (token : Text)
    → Tokenless (codes " " ++ token)
    → redact_bearer (codes "Bearer  " ++ token) ≡ codes "Bearer [redacted] " ++ token
unfolding redact_bearer
redact_bearer-leaks token free =
    bearer_loop-hides (length (codes "earer  " ++ token)) b'B' (codes "earer  " ++ token) refl
    ∙ ap (λ t. codes "Bearer [redacted]" ++ t)
        (bearer_loop-Tokenless (length (codes "earer  " ++ token)) (codes " " ++ token)
          (ground arith) free)

length-take : (n : ℕ) (s : Text) → length (take n s) ≤ n
length-take zero s = ground arith
length-take (suc n) [] = ground arith
length-take (suc n) (c ∷ s) = ground (arith, length-take n s)

append_empty : (s : Text) → s ++ [] ≡ s
append_empty [] = refl
append_empty (c ∷ s) = ap (λ t. c ∷ t) (append_empty s)

-- An error body keeps its first 512 characters, and all of them if there are no more.
pub truncate_error_body_lem :
    (body : Text)
    → (length (truncate_error_body body) ≤ body_limit)
      × ((rest : Text) × (body ≡ truncate_error_body body ++ rest))
      × (length body ≤ body_limit → truncate_error_body body ≡ body)
unfolding truncate_error_body
truncate_error_body_lem body = elim (Bool-cases (leb (length body) body_limit)) [
  | inl short ↦ rw short (ground arith, ([], sym (append_empty body)), λ few. refl)
  | inr long ↦ rw long (
    length-take body_limit body,
    (drop body_limit body, take-drop body_limit body),
    λ few. absurd (ground arith),
  )
]
