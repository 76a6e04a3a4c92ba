-- ===== src/Exchange/Tbx/Finishing.antt =====
-- packages/runtime/rust/src/domain/glossary_exchange.rs: `finish_tbx_entry`, the input that the
-- terms of an entry make.
use linguaray.Base.{
  ℕ, zero, suc, Bool, true, false, not, ◌||◌, ◌&&◌, Option, none, some, List, [], ◌∷◌, ◌==◌,
  if◌then◌else◌, Text, eq_ignore_ascii_case,
}
use linguaray.Glossary.{GlossaryEntryInput, GlossaryBook}

pub record TbxEntry : Type 0 where
  pub terms : List (Option Text × Text)
  pub forbidden : List Text
  pub note : Option Text
  pub case_sensitive : Bool
  pub whole_word : Option Bool

abbrev pub default_entry : TbxEntry
default_entry = record {
  terms = [];
  forbidden = [];
  note = none;
  case_sensitive = false;
  whole_word = none;
}

-- `language_term_index`: the first term in a language, by its primary subtag
unfoldable pub primary : Text → Text
primary [] = []
primary (c ∷ s) = let rest = primary s in if c == b'-' || c == b'_' then [] else c ∷ rest

abbrev pub is_language : Text → Option Text → Bool
is_language expected none = false
is_language expected (some language) = eq_ignore_ascii_case (primary language) (primary expected)

abbrev pub is_index : Option ℕ → ℕ → Bool
is_index none i = false
is_index (some excluded) i = i == excluded

unfoldable pub term_index : Text → Option ℕ → ℕ → List (Option Text × Text) → Option ℕ
term_index expected excluded i [] = none
term_index expected excluded i ((language, term) ∷ terms) =
    let rest = term_index expected excluded (suc i) terms in
    if not (is_index excluded i) && is_language expected language then some i else rest

unfoldable pub language_term_index : List (Option Text × Text) → Option Text → Option ℕ → Option ℕ
language_term_index terms none excluded = none
language_term_index terms (some expected) excluded = term_index expected excluded 0 terms

abbrev pub term_at : List (Option Text × Text) → ℕ → Option Text
term_at [] i = none
term_at ((language, term) ∷ terms) zero = some term
term_at ((language, term) ∷ terms) (suc i) = term_at terms i

-- `(0..terms.len()).find(|index| *index != source_index)`
abbrev pub another_index : List (Option Text × Text) → ℕ → Option ℕ
another_index [] i = none
another_index (t ∷ []) zero = none
another_index (t ∷ u ∷ terms) zero = some 1
another_index (t ∷ terms) (suc i) = some 0

abbrev pub index_or : Option ℕ → Option ℕ → Option ℕ
index_or (some i) second = some i
index_or none second = second

abbrev pub flag_or_true : Option Bool → Bool
flag_or_true none = true
flag_or_true (some b) = b

abbrev pub tbx_input : TbxEntry → Option Text → Option Text → Option GlossaryEntryInput
tbx_input entry (some term) (some translation) = some (record {
  id = none;
  term = term;
  translation = translation;
  forbidden = entry.forbidden;
  note = entry.note;
  case_sensitive = entry.case_sensitive;
  whole_word = flag_or_true entry.whole_word;
})
tbx_input entry _ _ = none

abbrev pub source_index_of : TbxEntry → GlossaryBook → ℕ
source_index_of entry book = elim (language_term_index entry.terms book.source_language none) [
  | some i ↦ i
  | none ↦ 0
]

unfoldable pub finish_tbx_entry : TbxEntry → GlossaryBook → Option GlossaryEntryInput
finish_tbx_entry entry book =
    let source = source_index_of entry book in
    elim (index_or (language_term_index entry.terms book.target_language (some source))
      (another_index entry.terms source)) [
        | none ↦ none
        | some target ↦ tbx_input entry (term_at entry.terms source) (term_at entry.terms target)
      ]
