-- ===== src/Exchange/Tbx/Writing.antt =====
-- packages/runtime/rust/src/domain/glossary_exchange.rs: `encode_tbx`. The crate quick_xml is a
-- parameter: its events, its `escape`, and its `unescape`.
use linguaray.Base.{Option, none, some, List, [], ◌∷◌, ◌++◌, codes, Text}
use linguaray.Glossary.{GlossaryEntry, GlossaryBook}
use linguaray.Exchange.{flag_text}

-- The events of `read_event`, with `trim_text(true)`. A reference such as `&amp;` in a text is an
-- event of its own. Of an attribute, the key and the raw value.
pub data Event : Type 0 where
  start : Text → List (Text × Text) → Event
  end : Text → Event
  text : Text → Event
  cdata : Text → Event
  general_ref : Text → Event
  -- declarations, comments, empty elements
  other : Event
  broken : Event

pub record QuickXml : Type 0 where
  -- the events up to the end of the file, or up to the first error
  pub events : Text → List Event
  pub escape : Text → Text
  pub unescape : Text → Option Text

abbrev pub language_or_und : Option Text → Text
language_or_und none = codes "und"
language_or_und (some l) = l

module _ (xml : QuickXml) where
  abbrev pub forbidden_note : Text → Text
  forbidden_note forbidden =
      codes "<termNote type=\"linguaray:forbidden\">" ++ xml.escape forbidden ++ codes "</termNote>"

  abbrev pub forbidden_notes : List Text → Text
  forbidden_notes [] = []
  forbidden_notes (f ∷ fs) = forbidden_note f ++ forbidden_notes fs

  abbrev pub note_element : Option Text → Text
  note_element none = []
  note_element (some note) =
      codes "<descrip type=\"linguaray:note\">" ++ xml.escape note ++ codes "</descrip>\n"

  unfoldable pub encode_entry : GlossaryBook → GlossaryEntry → Text
  encode_entry book e =
      codes "<termEntry id=\""
      ++ xml.escape e.id
      ++ codes "\">\n<langSet xml:lang=\""
      ++ xml.escape (language_or_und book.source_language)
      ++ codes "\"><tig><term>"
      ++ xml.escape e.term
      ++ codes "</term></tig></langSet>\n<langSet xml:lang=\""
      ++ xml.escape (language_or_und book.target_language)
      ++ codes "\"><tig><term>"
      ++ xml.escape e.translation
      ++ codes "</term>"
      ++ forbidden_notes e.forbidden
      ++ codes "</tig></langSet>\n"
      ++ note_element e.note
      ++ codes "<descrip type=\"linguaray:case-sensitive\">"
      ++ flag_text e.case_sensitive
      ++ codes "</descrip>\n<descrip type=\"linguaray:whole-word\">"
      ++ flag_text e.whole_word
      ++ codes "</descrip>\n</termEntry>\n"

  unfoldable pub encode_entries : GlossaryBook → List GlossaryEntry → Text
  encode_entries book [] = []
  encode_entries book (e ∷ es) = encode_entry book e ++ encode_entries book es

  unfoldable pub encode_tbx : GlossaryBook → List GlossaryEntry → Text
  encode_tbx book entries =
      codes
        "<?xml version=\"1.0\" encoding=\"UTF-8\"?>\n<tbx type=\"TBX-Basic\" style=\"dca\">\n<text><body>\n"
      ++ encode_entries book entries
      ++ codes "</body></text>\n</tbx>\n"
