-- ===== src/Exchange/Printed.antt =====
-- The document that `encode_tbx` writes, as elements, texts and ends of lines.
use mathlib.Core.List.{append_assoc}
use linguaray.Base.{◌≡◌, refl, sym, ap, ◌∙◌, Option, none, some, List, [], ◌∷◌, ◌++◌, codes, Text}
use linguaray.Exchange.{flag_text}
use linguaray.Glossary.{GlossaryBook, GlossaryEntry}
use linguaray.Exchange.Tbx.{
  Event, start, end, text, cdata, general_ref, other, broken, QuickXml, forbidden_notes,
  note_element, encode_entry, encode_entries, encode_tbx,
}
use linguaray.Exchange.TbxReads.{forbidden_events, note_events, start_lang, all_events, tbx_events}

-- What stands in a file: something that is reported as an event, or the end of a line between two
-- elements, which is not.
pub data Piece : Type 0 where
  node : Event → Piece
  newline : Piece

abbrev pub events_in : List Piece → List Event
events_in [] = []
events_in (node e ∷ ps) = e ∷ events_in ps
events_in (newline ∷ ps) = events_in ps

-- The markup of XML, before the text that follows
abbrev pub print_attributes : List (Text × Text) → Text → Text
print_attributes [] rest = rest
print_attributes ((key, value) ∷ attributes) rest =
    b' ' ∷ (key ++ (codes "=\"" ++ (value ++ (b'"' ∷ print_attributes attributes rest))))

abbrev pub print_event : Event → Text → Text
print_event (start name attributes) rest =
    b'<' ∷ (name ++ print_attributes attributes (b'>' ∷ rest))
print_event (end name) rest = codes "</" ++ (name ++ (b'>' ∷ rest))
print_event (text value) rest = value ++ rest
print_event (cdata value) rest = codes "<![CDATA[" ++ (value ++ (codes "]]>" ++ rest))
print_event (general_ref name) rest = b'&' ∷ (name ++ (b';' ∷ rest))
print_event other rest = codes "<?xml version=\"1.0\" encoding=\"UTF-8\"?>" ++ rest
print_event broken rest = rest

abbrev pub print : List Piece → Text
print [] = []
print (node e ∷ ps) = print_event e (print ps)
print (newline ∷ ps) = b'\n' ∷ print ps

module _ (xml : QuickXml) where
  abbrev pub term_pieces : Text → List Piece → List Piece
  term_pieces t ps =
      node (start (codes "tig") [])
      ∷ node (start (codes "term") [])
      ∷ node (text (xml.escape t))
      ∷ node (end (codes "term"))
      ∷ ps

  abbrev pub forbidden_pieces : List Text → List Piece → List Piece
  forbidden_pieces [] ps = ps
  forbidden_pieces (f ∷ fs) ps =
      node (start (codes "termNote") ((codes "type", codes "linguaray:forbidden") ∷ []))
      ∷ node (text (xml.escape f))
      ∷ node (end (codes "termNote"))
      ∷ forbidden_pieces fs ps

  abbrev pub descrip_pieces : Text → Text → List Piece → List Piece
  descrip_pieces kind value ps =
      node (start (codes "descrip") ((codes "type", kind) ∷ []))
      ∷ node (text value)
      ∷ node (end (codes "descrip"))
      ∷ newline
      ∷ ps

  abbrev pub note_pieces : Option Text → List Piece → List Piece
  note_pieces none ps = ps
  note_pieces (some n) ps = descrip_pieces (codes "linguaray:note") (xml.escape n) ps

  abbrev pub entry_pieces : GlossaryBook → GlossaryEntry → List Piece → List Piece
  entry_pieces book e ps =
      node (start (codes "termEntry") ((codes "id", xml.escape e.id) ∷ []))
      ∷ newline
      ∷ node (start_lang xml book.source_language)
      ∷ term_pieces e.term (
          node (end (codes "tig"))
          ∷ node (end (codes "langSet"))
          ∷ newline
          ∷ node (start_lang xml book.target_language)
          ∷ term_pieces e.translation (
              forbidden_pieces e.forbidden (
                node (end (codes "tig"))
                ∷ node (end (codes "langSet"))
                ∷ newline
                ∷ note_pieces e.note (
                    descrip_pieces (codes "linguaray:case-sensitive") (flag_text e.case_sensitive) (
                      descrip_pieces (codes "linguaray:whole-word") (flag_text e.whole_word)
                        (node (end (codes "termEntry")) ∷ newline ∷ ps))))))

  abbrev pub all_pieces : GlossaryBook → List GlossaryEntry → List Piece → List Piece
  all_pieces book [] ps = ps
  all_pieces book (e ∷ entries) ps = entry_pieces book e (all_pieces book entries ps)

  -- The whole file
  abbrev pub document : GlossaryBook → List GlossaryEntry → List Piece
  document book entries =
      node other
      ∷ newline
      ∷ node (
          start (codes "tbx")
            ((codes "type", codes "TBX-Basic") ∷ (codes "style", codes "dca") ∷ []))
      ∷ newline
      ∷ node (start (codes "text") [])
      ∷ node (start (codes "body") [])
      ∷ newline
      ∷ all_pieces book entries (
          node (end (codes "body"))
          ∷ node (end (codes "text"))
          ∷ newline
          ∷ node (end (codes "tbx"))
          ∷ newline
          ∷ [])

  events_in-forbidden :
      (fs : List Text) (ps : List Piece)
      → events_in (forbidden_pieces fs ps) ≡ forbidden_events xml fs (events_in ps)
  events_in-forbidden [] ps = refl
  events_in-forbidden (f ∷ fs) ps = rw (events_in-forbidden fs ps) refl

  events_in-note :
      (n : Option Text) (ps : List Piece)
      → events_in (note_pieces n ps) ≡ note_events xml n (events_in ps)
  events_in-note none ps = refl
  events_in-note (some n) ps = refl

  events_in-all :
      (book : GlossaryBook) (entries : List GlossaryEntry) (ps : List Piece)
      → events_in (all_pieces book entries ps) ≡ all_events xml book entries (events_in ps)
  events_in-all book [] ps = refl
  events_in-all book (e ∷ entries) ps =
      rw (events_in-forbidden e.forbidden _, events_in-note e.note _, events_in-all book entries ps)
        refl

  pub events_in-document :
      (book : GlossaryBook) (entries : List GlossaryEntry)
      → events_in (document book entries) ≡ tbx_events xml book entries
  events_in-document book entries = rw (events_in-all book entries _) refl

  print-forbidden :
      (fs : List Text) (ps : List Piece)
      → print (forbidden_pieces fs ps) ≡ forbidden_notes xml fs ++ print ps
  print-forbidden [] ps = refl
  print-forbidden (f ∷ fs) ps = rw (print-forbidden fs ps) (simp (append_assoc))

  print-note :
      (n : Option Text) (ps : List Piece)
      → print (note_pieces n ps) ≡ note_element xml n ++ print ps
  print-note none ps = refl
  print-note (some n) ps = simp (append_assoc)

  print-entry :
      (book : GlossaryBook) (e : GlossaryEntry) (ps : List Piece)
      → print (entry_pieces book e ps) ≡ encode_entry xml book e ++ print ps
  unfolding encode_entry
  print-entry book e ps =
      rw (print-forbidden e.forbidden _, print-note e.note _) (simp (append_assoc))

  print-all :
      (book : GlossaryBook) (entries : List GlossaryEntry) (ps : List Piece)
      → print (all_pieces book entries ps) ≡ encode_entries xml book entries ++ print ps
  unfolding encode_entries
  print-all book [] ps = refl
  print-all book (e ∷ entries) ps =
      print-entry book e (all_pieces book entries ps)
      ∙ ap (λ t. encode_entry xml book e ++ t) (print-all book entries ps)
      ∙ sym (append_assoc (encode_entry xml book e) (encode_entries xml book entries) (print ps))

  -- What encode_tbx writes is the document.
  pub encode_tbx-document :
      (book : GlossaryBook) (entries : List GlossaryEntry)
      → encode_tbx xml book entries ≡ print (document book entries)
  unfolding encode_tbx
  encode_tbx-document book entries = rw (print-all book entries _) (simp (append_assoc))
