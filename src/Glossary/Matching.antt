-- ===== src/Glossary/Matching.antt =====
-- packages/runtime/rust/src/domain/glossary/matcher.rs: which books apply to a pair of languages,
-- the compiled matcher and its search.
pub mod Cache
pub mod Runs
pub mod Invalidation
pub mod Languages
pub mod Overlap
use linguaray.Base.{
  utf8_len, ℕ, zero, suc, ◌+◌, ◌-◌, Bool, true, false, not, ◌&&◌, ◌||◌, Option, none, some, List,
  [], ◌∷◌, ◌++◌, map, leb, ltb, ◌==◌, if◌then◌else◌, is_empty, Text, codes, trim,
  eq_ignore_ascii_case, is_ascii_alphanumeric, normalize_optional, ◌%◌, ◌^◌,
}
use linguaray.Base.Sort.{sort_by}
use linguaray.Glossary.{GlossaryEntry, GlossaryMatch, BookFile}

-- `split(['-', '_']).next()`
unfoldable pub primary_subtag : Text → Text
primary_subtag [] = []
primary_subtag (c ∷ s) =
    let rest = primary_subtag s in if c == b'-' || c == b'_' then [] else c ∷ rest

-- A book's language against the request's, both normalised.
unfoldable pub request_matches : Text → Option Text → Bool
unfolding primary_subtag
request_matches b none = true
request_matches b (some r) =
    eq_ignore_ascii_case r (codes "auto")
    || eq_ignore_ascii_case b r
    || eq_ignore_ascii_case (primary_subtag b) (primary_subtag r)

unfoldable pub language_applies : Option Text → Option Text → Bool
unfolding request_matches
language_applies book request = elim (normalize_optional book) [
  | none ↦ true
  | some b ↦ request_matches b (normalize_optional request)
]

pub record PatternInfo : Type 0 where
  pub book_id : Text
  pub entry_id : Text
  pub term : Text
  pub translation : Text
  pub forbidden : List Text
  pub whole_word : Bool

-- `PatternSet::push`; the pattern itself is the term.
abbrev pub pattern_info : Text → GlossaryEntry → PatternInfo
pattern_info book e = record {
  book_id = book;
  entry_id = e.id;
  term = e.term;
  translation = e.translation;
  forbidden = e.forbidden;
  whole_word = e.whole_word;
}

-- The crate aho_corasick: whether the automaton for some patterns can be built, and the matches
-- that `find_iter` yields, each with the number of its pattern and its byte offsets. The flag is
-- `ascii_case_insensitive`.
pub record AhoCorasick : Type 0 where
  pub builds : Bool → List Text → Bool
  pub find_iter : Bool → List Text → Text → List (ℕ × ℕ × ℕ)

-- The patterns of the enabled books that apply, `true` for the case-sensitive ones.
abbrev pub patterns_of : Bool → Text → List GlossaryEntry → List PatternInfo
patterns_of sensitive book [] = []
patterns_of sensitive book (e ∷ es) =
    let rest = patterns_of sensitive book es in
    if is_empty e.term
    then rest
    else if e.case_sensitive
    then if sensitive then pattern_info book e ∷ rest else rest
    else if sensitive
    then rest
    else pattern_info book e ∷ rest

abbrev pub book_applies : Option Text → Option Text → BookFile → Bool
book_applies source target b =
    b.enabled
    && language_applies b.source_language source
    && language_applies b.target_language target

unfoldable pub pattern_set : Bool → Option Text → Option Text → List BookFile → List PatternInfo
pattern_set sensitive source target [] = []
pattern_set sensitive source target (b ∷ bs) =
    let rest = pattern_set sensitive source target bs in
    if book_applies source target b then patterns_of sensitive b.id b.entries ++ rest else rest

-- An automaton is known by its infos and its flag; `none` is no pattern, or a failed build.
pub record CompiledMatcher : Type 0 where
  pub sensitive : Option (List PatternInfo)
  pub insensitive : Option (List PatternInfo)

-- Where a byte offset cuts a text: `&text[..at]` and `&text[at..]`.
unfoldable pub before : ℕ → Text → Text
before at [] = []
before at (c ∷ s) = let rest = before (at - utf8_len c) s in if leb at 0 then [] else c ∷ rest

unfoldable pub after : ℕ → Text → Text
after at [] = []
after at (c ∷ s) = let rest = after (at - utf8_len c) s in if leb at 0 then c ∷ s else rest

abbrev pub last_char : Text → Option ℕ
last_char [] = none
last_char (c ∷ []) = some c
last_char (c ∷ d ∷ s) = last_char (d ∷ s)

abbrev pub first_char : Text → Option ℕ
first_char [] = none
first_char (c ∷ s) = some c

-- `Option::is_some_and`
abbrev pub is_some_and : Option ℕ → (ℕ → Bool) → Bool
is_some_and none p = false
is_some_and (some c) p = p c

abbrev pub is_word_char : ℕ → Bool
is_word_char c = is_ascii_alphanumeric c || c == b'_'

unfoldable pub is_word_boundary : Text → ℕ → ℕ → Text → Bool
unfolding before after
is_word_boundary text start stop term =
    if is_some_and (first_char term) is_ascii_alphanumeric
      && is_some_and (last_char (before start text)) is_word_char
    then false
    else not (
        is_some_and (last_char term) is_ascii_alphanumeric
        && is_some_and (first_char (after stop text)) is_word_char)

-- A hit that passed the test for word boundaries.
pub record Hit : Type 0 where
  pub start : ℕ
  pub stop : ℕ
  pub info : PatternInfo

-- `automaton.infos[pattern]`
abbrev pub info_at : List PatternInfo → ℕ → Option PatternInfo
info_at [] i = none
info_at (x ∷ xs) zero = some x
info_at (x ∷ xs) (suc i) = info_at xs i

unfoldable pub accept : Text → List PatternInfo → List (ℕ × ℕ × ℕ) → List Hit
unfolding is_word_boundary
accept text infos [] = []
accept text infos ((i, start, stop) ∷ found) =
    let rest = accept text infos found in
    elim (info_at infos i) [
      | none ↦ rest
      | some info ↦
          if info.whole_word && not (is_word_boundary text start stop info.term)
          then rest
          else record { start = start; stop = stop; info = info } ∷ rest
    ]

-- By start; of those that start together the longest first.
unfoldable pub hit_order : Hit → Hit → Bool
hit_order a b = ltb a.start b.start || (a.start == b.start && leb b.stop a.stop)

-- The offsets are cast `as u32`.
abbrev pub to_match : Text → Hit → GlossaryMatch
to_match text h = record {
  book_id = h.info.book_id;
  entry_id = h.info.entry_id;
  term = h.info.term;
  matched_text = before (h.stop - h.start) (after h.start text);
  translation = h.info.translation;
  forbidden = h.info.forbidden;
  start = h.start % 2 ^ 32;
  stop = h.stop % 2 ^ 32;
}

-- The loop over the sorted hits; `consumed` is where the last match ended.
unfoldable pub take_hits : ℕ → List Hit → List Hit
take_hits consumed [] = []
take_hits consumed (h ∷ hs) =
    let rest = take_hits (if ltb h.start consumed then consumed else h.stop) hs in
    if ltb h.start consumed then rest else h ∷ rest

module _ (ac : AhoCorasick) where
  -- `PatternSet::build`
  unfoldable pub build : Bool → List PatternInfo → Option (List PatternInfo)
  build insensitive infos =
      if is_empty infos
      then none
      else if ac.builds insensitive (map (λ i. i.term) infos)
      then some infos
      else none

  unfoldable pub compile : Option Text → Option Text → List BookFile → CompiledMatcher
  unfolding build pattern_set
  compile source target books = record {
    sensitive = build false (pattern_set true source target books);
    insensitive = build true (pattern_set false source target books);
  }

  unfoldable pub hits_of : Bool → Text → Option (List PatternInfo) → List Hit
  unfolding accept
  hits_of insensitive text none = []
  hits_of insensitive text (some infos) =
      accept text infos (ac.find_iter insensitive (map (λ i. i.term) infos) text)

  unfoldable pub raw_hits : CompiledMatcher → Text → List Hit
  unfolding hits_of
  raw_hits m text = hits_of false text m.sensitive ++ hits_of true text m.insensitive

  -- The hits that the loop of `CompiledMatcher::find` keeps.
  unfoldable pub chosen_hits : CompiledMatcher → Text → List Hit
  unfolding raw_hits hit_order take_hits
  chosen_hits m text = take_hits 0 (sort_by hit_order (raw_hits m text))

  -- `CompiledMatcher::find`
  unfoldable pub find_matches : CompiledMatcher → Text → List GlossaryMatch
  unfolding chosen_hits
  find_matches m text = map (to_match text) (chosen_hits m text)
