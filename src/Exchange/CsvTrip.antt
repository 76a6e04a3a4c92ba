-- ===== src/Exchange/CsvTrip.antt =====
-- A glossary that is written as CSV is read back from it.
use linguaray.Base.{
  ◌≡◌, refl, ◌∙◌, Bool, true, false, Option, none, some, List, [], ◌∷◌, ◌++◌, map, arith, ℕ, All,
  Text, ascii_lower, trim, trim_idem, normalize_optional, eq_ignore_ascii_case, same,
}
use linguaray.Errors.{ok}
use linguaray.Glossary.{GlossaryEntry, GlossaryEntryInput}
use linguaray.Exchange.{
  Csv, csv_header, csv_row, columns_of, column, Columns, csv_input, csv_inputs, encode_csv,
  decode_csv, text_or_empty, flag_text, parse_bool, forbidden_of, join_with, is_separator,
}
use linguaray.Exchange.Pieces.{
  IsVisible, IsPiece, trim-IsVisible, not_empty, forbidden_of-join, joined-IsVisible,
  split_at-append, split_at-plain, trim_pieces,
}

-- The note of an entry is missing or visible.
abbrev pub IsNote : Option Text → Type 0
IsNote none = Unit
IsNote (some n) = IsVisible n

-- The texts of an entry are trimmed, and its forbidden texts have no separator in them.
pub record IsExchangeable (e : GlossaryEntry) : Type 0 where
  pub term : IsVisible e.term
  pub translation : IsVisible e.translation
  pub forbidden : All IsPiece e.forbidden
  pub note : IsNote e.note

-- The entry as an input that makes it anew
abbrev pub input_of : GlossaryEntry → GlossaryEntryInput
input_of e = record {
  id = none;
  term = e.term;
  translation = e.translation;
  forbidden = e.forbidden;
  note = e.note;
  case_sensitive = e.case_sensitive;
  whole_word = e.whole_word;
}

abbrev pub own_columns : Columns
own_columns = record {
  term = 0;
  translation = 1;
  forbidden = some 2;
  note = some 3;
  case_sensitive = some 4;
  whole_word = some 5;
}

columns_of-header : columns_of (map trim csv_header) ≡ ok own_columns
unfolding columns_of column eq_ignore_ascii_case trim same
columns_of-header = refl

parse_bool-flag_text : (b : Bool) → parse_bool (trim (flag_text b)) ≡ b
unfolding parse_bool trim same ascii_lower
parse_bool-flag_text true = refl
parse_bool-flag_text false = refl

normalize-note :
    (n : Option Text) → IsNote n → normalize_optional (some (trim (text_or_empty n))) ≡ n
unfolding normalize_optional
normalize-note none h = nothing
  where
    nothing : normalize_optional (some (trim [])) ≡ none
    nothing = refl
normalize-note (some n) h = rw (trim-IsVisible n h, trim-IsVisible n h, not_empty n h) refl

trimmed_twice : (t : Text) → IsVisible t → trim (trim t) ≡ t
trimmed_twice t v = trim_idem t ∙ trim-IsVisible t v

csv_input-row :
    (e : GlossaryEntry)
    → IsExchangeable e
    → csv_input own_columns (map trim (csv_row e)) ≡ input_of e
unfolding csv_input csv_row
csv_input-row e h =
    rw
      (
        trimmed_twice e.term h.term,
        trimmed_twice e.translation h.translation,
        forbidden_of-join e.forbidden h.forbidden,
        normalize-note e.note h.note,
        parse_bool-flag_text e.case_sensitive,
        parse_bool-flag_text e.whole_word,
      )
      refl

abbrev pub trimmed_rows : List (List Text) → List (Option (List Text))
trimmed_rows rows = map (λ row. some (map trim row)) rows

csv_inputs-rows :
    (entries : List GlossaryEntry)
    → All IsExchangeable entries
    → csv_inputs own_columns (trimmed_rows (map csv_row entries)) ≡ ok (map input_of entries)
unfolding csv_inputs
csv_inputs-rows [] h = refl
csv_inputs-rows (e ∷ es) (h, hs) = ground (arith, csv_input-row e h, csv_inputs-rows es hs)

module _ (csv : Csv) where
  -- If the crate writes the records of a glossary and reads them back, trimmed, then decoding what
  -- was encoded gives every entry, in its order, as an input with all its fields, provided that the
  -- term, the translation, each forbidden text and the note, if there is one, are trimmed and not
  -- empty, and that no forbidden text holds a vertical bar or a semicolon.
  pub decode_csv-encode_csv :
      (entries : List GlossaryEntry) (text : Text)
      → csv.write (csv_header ∷ map csv_row entries) ≡ some text
      → csv.read text ≡ some (map trim csv_header, trimmed_rows (map csv_row entries))
      → All IsExchangeable entries
      → (encode_csv csv entries ≡ ok text) × (decode_csv csv text ≡ ok (map input_of entries))
  unfolding encode_csv decode_csv
  decode_csv-encode_csv entries text w r h =
      (ground arith, ground (arith, columns_of-header, csv_inputs-rows entries h))

-- A forbidden text with a separator inside is read back as two.
pub csv_input-splits :
    (e : GlossaryEntry) (a : Text) (c : ℕ) (b : Text)
    → e.forbidden ≡ (a ++ c ∷ b) ∷ []
    → is_separator c ≡ true
    → IsPiece a
    → IsPiece b
    → (csv_input own_columns (map trim (csv_row e))).forbidden ≡ a ∷ b ∷ []
unfolding csv_input csv_row join_with forbidden_of
csv_input-splits e a c b h sep p q =
    rw
      (
        h,
        trim-IsVisible (a ++ c ∷ b) (joined-IsVisible a c b p.visible q.visible),
        split_at-append is_separator a c b p.whole sep,
        split_at-plain is_separator b q.whole,
      )
      (trim_pieces (a ∷ b ∷ []) (p, (q, tt)))
