-- ===== src/Glossary/Matching/Languages.antt =====
-- Requests that `MatcherKey` does not tell apart get the same patterns.
use linguaray.Base.{
  ℕ, ◌≡◌, refl, sym, ◌∙◌, inl, inr, Bool, true, false, Option, none, some, List, [], ◌∷◌, map,
  arith, ltb, if◌then◌else◌, Option-cases, is_empty, all, Text, trim, trim_start, trim_end,
  ascii_lower, eq_ignore_ascii_case, normalize_optional,
}
use linguaray.Glossary.{BookFile}
use linguaray.Glossary.Matching.{
  primary_subtag, request_matches, language_applies, pattern_set, AhoCorasick, compile,
}

-- `normalize_language` of matcher.rs
unfoldable pub normalize_language : (Text → Text) → Option Text → Option Text
normalize_language to_lowercase none = none
normalize_language to_lowercase (some v) =
    let v' = to_lowercase (trim v) in if is_empty v' then none else some v'

abbrev pub IsAscii : Option Text → Type 0
IsAscii none = Unit
IsAscii (some v) = all (λ c. ltb c 128) v ≡ true

-- On ASCII text `to_lowercase` maps the ASCII letters.
abbrev pub LowersAscii : (Text → Text) → Type 0
LowersAscii to_lowercase =
    (v : Text) → all (λ c. ltb c 128) v ≡ true → to_lowercase v ≡ map ascii_lower v

all-trim_start : (p : ℕ → Bool) (s : Text) → all p s ≡ true → all p (trim_start s) ≡ true
unfolding trim_start
all-trim_start p [] h = refl
all-trim_start p (c ∷ s) h = ground (arith, all-trim_start p s)

all-trim_end : (p : ℕ → Bool) (s : Text) → all p s ≡ true → all p (trim_end s) ≡ true
unfolding trim_end
all-trim_end p [] h = refl
all-trim_end p (c ∷ s) h = ground (arith, all-trim_end p s)

all-trim : (p : ℕ → Bool) (s : Text) → all p s ≡ true → all p (trim s) ≡ true
unfolding trim
all-trim p s h = all-trim_end p (trim_start s) (all-trim_start p s h)

primary_subtag-lower :
    (s : Text) → map ascii_lower (primary_subtag s) ≡ primary_subtag (map ascii_lower s)
unfolding primary_subtag ascii_lower
primary_subtag-lower [] = refl
primary_subtag-lower (c ∷ s) = ground (arith, primary_subtag-lower s)

-- What a request comes to for the comparison with a book's language.
abbrev lowered : Option Text → Option Text
lowered none = none
lowered (some v) = some (map ascii_lower v)

normalize_language-ascii :
    (to_lowercase : Text → Text) (request : Option Text)
    → LowersAscii to_lowercase
    → IsAscii request
    → normalize_language to_lowercase request ≡ lowered (normalize_optional request)
unfolding normalize_language normalize_optional
normalize_language-ascii to_lowercase none l a = refl
normalize_language-ascii to_lowercase (some v) l a =
    rw (l (trim v) (all-trim (λ c. ltb c 128) v a)) (nonempty (trim v))
  where
    nonempty :
        (t : Text)
        → (if is_empty (map ascii_lower t) then none else some (map ascii_lower t))
          ≡ lowered (if is_empty t then none else some t)
    nonempty [] = refl
    nonempty (c ∷ t) = refl

request_matches-lowered :
    (b : Text) (r q : Option Text)
    → lowered r ≡ lowered q
    → request_matches b r ≡ request_matches b q
request_matches-lowered b none none h = refl
request_matches-lowered b none (some q) h = cc
request_matches-lowered b (some r) none h = cc
request_matches-lowered b (some r) (some q) h =
    unfold request_matches eq_ignore_ascii_case in
    cc (h, primary_subtag-lower r, primary_subtag-lower q)

-- The test depends on the lower case of the request alone.
language_applies-lowered :
    (book r q : Option Text)
    → lowered (normalize_optional r) ≡ lowered (normalize_optional q)
    → language_applies book r ≡ language_applies book q
unfolding language_applies
language_applies-lowered book r q h = elim (Option-cases (normalize_optional book)) [
  | inl e ↦ rw (e, language_applies) refl
  | inr (b, e) ↦
      rw (e, language_applies)
        (request_matches-lowered b (normalize_optional r) (normalize_optional q) h)
]

-- Two requests of one key, in ASCII.
pub record SameKey (to_lowercase : Text → Text) (r q : Option Text) : Type 0 where
  pub ascii : IsAscii r
  pub ascii' : IsAscii q
  pub keys : normalize_language to_lowercase r ≡ normalize_language to_lowercase q

language_applies-key :
    (to_lowercase : Text → Text) (book r q : Option Text)
    → LowersAscii to_lowercase
    → SameKey to_lowercase r q
    → language_applies book r ≡ language_applies book q
language_applies-key to_lowercase book r q l k = language_applies-lowered book r q (
    sym (normalize_language-ascii to_lowercase r l k.ascii)
    ∙ k.keys
    ∙ normalize_language-ascii to_lowercase q l k.ascii')

module _ (to_lowercase : Text → Text) (lowers : LowersAscii to_lowercase)
    {source source' target target' : Option Text}
    (same_source : SameKey to_lowercase source source')
    (same_target : SameKey to_lowercase target target') where
  pattern_set-key :
      (sensitive : Bool) (books : List BookFile)
      → pattern_set sensitive source target books ≡ pattern_set sensitive source' target' books
  unfolding pattern_set
  pattern_set-key sensitive [] = refl
  pattern_set-key sensitive (b ∷ bs) =
      rw (language_applies-key to_lowercase b.source_language source source' lowers same_source) (
        rw (language_applies-key to_lowercase b.target_language target target' lowers same_target)
          (rw (pattern_set-key sensitive bs) refl))

  -- Requests of one key compile to one matcher.
  pub compile-key :
      (ac : AhoCorasick) (books : List BookFile)
      → compile ac source target books ≡ compile ac source' target' books
  unfolding compile
  compile-key ac books = rw (pattern_set-key true books) (rw (pattern_set-key false books) refl)
