-- ===== src/Exchange/Tbx.antt =====
-- packages/runtime/rust/src/domain/glossary_exchange.rs: glossary books as TBX, `encode_tbx` in
-- `Writing` and `decode_tbx` here.
mod Writing
mod Finishing
pub use linguaray.Exchange.Tbx.Writing.{
  Event, start, end, text, cdata, general_ref, other, broken, QuickXml, language_or_und,
  forbidden_note, forbidden_notes, note_element,
}
unfoldable pub use linguaray.Exchange.Tbx.Writing.{encode_entry, encode_entries, encode_tbx}
pub use linguaray.Exchange.Tbx.Finishing.{
  TbxEntry, default_entry, is_language, is_index, term_at, another_index, index_or, flag_or_true,
  tbx_input, source_index_of,
}
unfoldable pub use linguaray.Exchange.Tbx.Finishing.{
  primary, term_index, language_term_index, finish_tbx_entry,
}
use linguaray.Base.{
  ℕ, zero, suc, Bool, true, false, not, ◌||◌, ◌&&◌, Option, none, some, List, [], ◌∷◌, ◌++◌, codes,
  ◌==◌, if◌then◌else◌, is_empty, find, Text, same, trim, eq_ignore_ascii_case,
}
use linguaray.Errors.{Result, ok, err, tbx_failed}
use linguaray.Glossary.{GlossaryEntry, GlossaryEntryInput, GlossaryBook}
use linguaray.Exchange.{parse_bool, flag_text}

-- The variables of the loop; `buffer` is `text` of the code.
pub record Reading : Type 0 where
  pub entries : List GlossaryEntryInput
  pub pending : Option TbxEntry
  pub language : Option Text
  pub capture : Option Text
  pub buffer : Text

module _ (xml : QuickXml) where
  -- The first attribute of the key, if it can be unescaped
  unfoldable pub attribute : List (Text × Text) → Text → Option Text
  attribute attributes key = elim (find (λ a. same a.0 key) attributes) [
    | some a ↦ xml.unescape a.1
    | none ↦ none
  ]

  abbrev pub begin_capture : Text → Reading → Reading
  begin_capture kind s = record s { capture = some kind; buffer = [] }

  abbrev pub is_some_text : Option Text → Text → Bool
  is_some_text none t = false
  is_some_text (some v) t = same v t

  abbrev pub capture_kind : Option Text → Reading → Reading
  capture_kind none s = s
  capture_kind (some kind) s = begin_capture kind s

  unfoldable pub on_start : Text → List (Text × Text) → Reading → Reading
  on_start name attributes s =
      if same name (codes "termEntry")
      then record s { pending = some default_entry }
      else if same name (codes "langSet")
      then record s { language = attribute attributes (codes "xml:lang") }
      else if same name (codes "term")
      then begin_capture (codes "term") s
      else if same name (codes "termNote")
          && is_some_text (attribute attributes (codes "type")) (codes "linguaray:forbidden")
      then begin_capture (codes "forbidden") s
      else if same name (codes "descrip")
      then capture_kind (attribute attributes (codes "type")) s
      else s

abbrev pub push_term : Option Text → Text → Option TbxEntry → Option TbxEntry
push_term language value none = none
push_term language value (some e) =
    if is_empty value then some e else some (record e { terms = e.terms ++ (language, value) ∷ [] })

-- The end of a note or a description, by its kind
unfoldable pub push_kind : Text → Text → TbxEntry → TbxEntry
push_kind kind value e =
    if same kind (codes "forbidden") && not (is_empty value)
    then record e { forbidden = e.forbidden ++ value ∷ [] }
    else if same kind (codes "linguaray:note") && not (is_empty value)
    then record e { note = some value }
    else if same kind (codes "linguaray:case-sensitive")
    then record e { case_sensitive = parse_bool value }
    else if same kind (codes "linguaray:whole-word")
    then record e { whole_word = some (parse_bool value) }
    else e

-- `capture.take()` comes after the test on `pending`, in one pattern: both are evaluated.
abbrev pub end_capture : Option TbxEntry → Option Text → Text → Option TbxEntry
end_capture (some e) (some kind) value = some (push_kind kind value e)
end_capture pending _ value = pending

abbrev pub finished :
    Option TbxEntry → GlossaryBook → List GlossaryEntryInput → List GlossaryEntryInput
finished none book entries = entries
finished (some e) book entries = elim (finish_tbx_entry e book) [
  | some input ↦ entries ++ input ∷ []
  | none ↦ entries
]

unfoldable pub on_end : GlossaryBook → Text → Reading → Reading
on_end book name s =
    if same name (codes "term")
    then record s { pending = push_term s.language (trim s.buffer) s.pending; capture = none }
    else if same name (codes "termNote") || same name (codes "descrip")
    then record s { pending = end_capture s.pending s.capture (trim s.buffer); capture = none }
    else if same name (codes "langSet")
    then record s { language = none }
    else if same name (codes "termEntry")
    then record s { pending = none; entries = finished s.pending book s.entries }
    else s

abbrev pub is_capturing : Reading → Bool
is_capturing s = elim s.capture [ some kind ↦ true | none ↦ false ]

abbrev pub append_text : Text → Reading → Reading
append_text value s = record s { buffer = s.buffer ++ value }

module _ (xml : QuickXml) (book : GlossaryBook) where
  -- One round of the loop
  unfoldable pub on_event : Event → Reading → Result Reading
  on_event (start name attributes) s = ok (on_start xml name attributes s)
  on_event (end name) s = ok (on_end book name s)
  on_event (text value) s =
      if is_capturing s
      then elim (xml.unescape value) [
        | some plain ↦ ok (append_text plain s)
        | none ↦ err tbx_failed
      ]
      else ok s
  on_event (cdata value) s = if is_capturing s then ok (append_text value s) else ok s
  on_event (general_ref name) s = ok s
  on_event other s = ok s
  on_event broken s = err tbx_failed

  unfoldable pub decode_events : List Event → Reading → Result Reading
  decode_events [] s = ok s
  decode_events (e ∷ es) s = elim (on_event e s) [ ok s' ↦ decode_events es s' | err x ↦ err x ]

  abbrev pub initial : Reading
  initial = record { entries = []; pending = none; language = none; capture = none; buffer = [] }

  abbrev pub entries_of : Result Reading → Result (List GlossaryEntryInput)
  entries_of (ok s) = ok s.entries
  entries_of (err e) = err e

  unfoldable pub decode_tbx : Text → Result (List GlossaryEntryInput)
  decode_tbx content = entries_of (decode_events (xml.events content) initial)
