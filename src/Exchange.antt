-- ===== src/Exchange.antt =====
-- packages/runtime/rust/src/domain/glossary_exchange.rs: glossary books as CSV. The crate csv is a
-- parameter: it turns records into text and text into records.
pub mod Tbx
pub mod Pieces
pub mod CsvTrip
pub mod References
pub mod TbxReads
pub mod Printed
mod TbxTrip
mod Tests
use linguaray.Base.{
  ℕ, zero, suc, Bool, true, false, not, ◌||◌, ◌&&◌, Option, none, some, List, [], ◌∷◌, ◌++◌, map,
  codes, ◌==◌, if◌then◌else◌, is_empty, any, retain, Text, same, trim, ascii_lower,
  eq_ignore_ascii_case, normalize_optional,
}
use linguaray.Errors.{Error, Result, ok, err, csv_failed, csv_needs}
use linguaray.Glossary.{GlossaryEntry, GlossaryEntryInput}

-- `Writer` with its default settings, and `Reader` with `flexible(true)` and `trim(Trim::All)`: the
-- header, and each record or the error of its line.
pub record Csv : Type 0 where
  pub write : List (List Text) → Option Text
  pub read : Text → Option (List Text × List (Option (List Text)))

-- `join("|")`
unfoldable pub join_with : ℕ → List Text → Text
join_with sep [] = []
join_with sep (x ∷ []) = x
join_with sep (x ∷ y ∷ ys) = x ++ sep ∷ join_with sep (y ∷ ys)

-- `split` at every character that passes: one piece more than there are such characters.
abbrev pub prepend : ℕ → List Text → List Text
prepend c [] = (c ∷ []) ∷ []
prepend c (piece ∷ pieces) = (c ∷ piece) ∷ pieces

unfoldable pub split_at : (ℕ → Bool) → Text → List Text
split_at p [] = [] ∷ []
split_at p (c ∷ s) = let rest = split_at p s in if p c then [] ∷ rest else prepend c rest

abbrev pub flag_text : Bool → Text
flag_text true = codes "true"
flag_text false = codes "false"

abbrev pub csv_header : List Text
csv_header =
    codes "term"
    ∷ codes "translation"
    ∷ codes "forbidden"
    ∷ codes "note"
    ∷ codes "case_sensitive"
    ∷ codes "whole_word"
    ∷ []

abbrev pub text_or_empty : Option Text → Text
text_or_empty none = []
text_or_empty (some t) = t

unfoldable pub csv_row : GlossaryEntry → List Text
csv_row e =
    e.term
    ∷ e.translation
    ∷ join_with b'|' e.forbidden
    ∷ text_or_empty e.note
    ∷ flag_text e.case_sensitive
    ∷ flag_text e.whole_word
    ∷ []

-- `matches!(.., "1" | "true" | "yes" | "on")`
unfoldable pub parse_bool : Text → Bool
parse_bool value =
    let v = map ascii_lower (trim value) in
    same v (codes "1") || same v (codes "true") || same v (codes "yes") || same v (codes "on")

-- `iter().position(p)`
abbrev pub position : (Text → Bool) → List Text → Option ℕ
position p [] = none
position p (x ∷ xs) =
    let rest = position p xs in
    if p x then some 0 else elim rest [ none ↦ none | some i ↦ some (suc i) ]

unfoldable pub column : List Text → List Text → Option ℕ
column headers aliases =
    position (λ header. any (λ alias. eq_ignore_ascii_case (trim header) alias) aliases) headers

abbrev pub get_elem? : List Text → ℕ → Option Text
get_elem? [] i = none
get_elem? (x ∷ xs) zero = some x
get_elem? (x ∷ xs) (suc i) = get_elem? xs i

-- `column.and_then(|index| row.get(index))`
abbrev pub cell : List Text → Option ℕ → Option Text
cell row none = none
cell row (some i) = get_elem? row i

abbrev pub is_separator : ℕ → Bool
is_separator c = c == b'|' || c == b';'

unfoldable pub forbidden_of : Text → List Text
forbidden_of field = retain (λ v. not (is_empty v)) (map trim (split_at is_separator field))

pub record Columns : Type 0 where
  pub term : ℕ
  pub translation : ℕ
  pub forbidden : Option ℕ
  pub note : Option ℕ
  pub case_sensitive : Option ℕ
  pub whole_word : Option ℕ

unfoldable pub columns_of : List Text → Result Columns
columns_of headers =
    elim (column headers
      (codes "term" ∷ codes "source" ∷ codes "source_text" ∷ codes "original" ∷ [])) [
        | none ↦ err (csv_needs (codes "term"))
        | some term ↦
            elim (column headers (
              codes "translation"
              ∷ codes "target"
              ∷ codes "target_text"
              ∷ codes "translated"
              ∷ [])) [
                | none ↦ err (csv_needs (codes "translation"))
                | some translation ↦ ok (record {
                  term = term;
                  translation = translation;
                  forbidden =
                      column headers
                        (codes "forbidden" ∷ codes "forbidden_terms" ∷ codes "alternatives" ∷ []);
                  note = column headers (codes "note" ∷ codes "notes" ∷ codes "comment" ∷ []);
                  case_sensitive =
                      column headers (codes "case_sensitive" ∷ codes "caseSensitive" ∷ []);
                  whole_word = column headers (codes "whole_word" ∷ codes "wholeWord" ∷ []);
                })
              ]
      ]

abbrev pub flag_or : Bool → Option Text → Bool
flag_or default none = default
flag_or default (some v) = parse_bool v

unfoldable pub csv_input : Columns → List Text → GlossaryEntryInput
csv_input c row = record {
  id = none;
  term = trim (text_or_empty (get_elem? row c.term));
  translation = trim (text_or_empty (get_elem? row c.translation));
  forbidden = forbidden_of (text_or_empty (cell row c.forbidden));
  note = normalize_optional (cell row c.note);
  case_sensitive = flag_or false (cell row c.case_sensitive);
  whole_word = flag_or true (cell row c.whole_word);
}

-- The loop over the records: the first one that cannot be read ends it.
unfoldable pub csv_inputs : Columns → List (Option (List Text)) → Result (List GlossaryEntryInput)
csv_inputs c [] = ok []
csv_inputs c (none ∷ rows) = err csv_failed
csv_inputs c (some row ∷ rows) = elim (csv_inputs c rows) [
  | ok inputs ↦ ok (csv_input c row ∷ inputs)
  | err e ↦ err e
]

module _ (csv : Csv) where
  unfoldable pub encode_csv : List GlossaryEntry → Result Text
  encode_csv entries = elim (csv.write (csv_header ∷ map csv_row entries)) [
    | some text ↦ ok text
    | none ↦ err csv_failed
  ]

  unfoldable pub decode_csv : Text → Result (List GlossaryEntryInput)
  decode_csv content = elim (csv.read content) [
    | none ↦ err csv_failed
    | some (headers, rows) ↦ elim (columns_of headers) [ ok c ↦ csv_inputs c rows | err e ↦ err e ]
  ]
