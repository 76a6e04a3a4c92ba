-- ===== src/Exchange/TbxReads.antt =====
-- The events of the elements that `encode_tbx` writes, and what the reader makes of each element.
use mathlib.Core.List.{append_assoc, append-nil}
use linguaray.Base.{
  is_white, ◌||◌, any, ◌==◌, ◌≡◌, refl, ap, ◌∙◌, Bool, true, false, Option, none, some, List, [],
  ◌∷◌, ◌++◌, codes, Text, trim, same, All, ascii_lower,
}
use linguaray.Glossary.{GlossaryBook, GlossaryEntry, GlossaryEntryInput}
use linguaray.Exchange.{parse_bool, flag_text}
use linguaray.Exchange.Pieces.{IsVisible, not_empty, trim-IsVisible}
use linguaray.Exchange.CsvTrip.{IsNote}
use linguaray.Exchange.Tbx.{
  Event, start, end, text, other, QuickXml, TbxEntry, Reading, begin_capture, on_event, on_start,
  on_end, decode_events, attribute, language_or_und, push_kind,
}

-- `unescape` undoes `escape`, and leaves a text without an ampersand as it is.
pub record Unescapes (xml : QuickXml) : Type 0 where
  pub undoes : (t : Text) → xml.unescape (xml.escape t) ≡ some t
  pub plain : (t : Text) → any (λ c. c == b'&') t ≡ false → xml.unescape t ≡ some t

-- The events of the elements that `encode_entry` writes, before those of what follows
module _ (xml : QuickXml) where
  abbrev pub term_events : Text → List Event → List Event
  term_events t es =
      start (codes "tig") []
      ∷ start (codes "term") []
      ∷ text (xml.escape t)
      ∷ end (codes "term")
      ∷ es

  abbrev pub forbidden_events : List Text → List Event → List Event
  forbidden_events [] es = es
  forbidden_events (f ∷ fs) es =
      start (codes "termNote") ((codes "type", codes "linguaray:forbidden") ∷ [])
      ∷ text (xml.escape f)
      ∷ end (codes "termNote")
      ∷ forbidden_events fs es

  abbrev pub descrip_events : Text → Text → List Event → List Event
  descrip_events kind value es =
      start (codes "descrip") ((codes "type", kind) ∷ []) ∷ text value ∷ end (codes "descrip") ∷ es

  abbrev pub note_events : Option Text → List Event → List Event
  note_events none es = es
  note_events (some n) es = descrip_events (codes "linguaray:note") (xml.escape n) es

  abbrev pub start_lang : Option Text → Event
  start_lang language =
      start (codes "langSet") ((codes "xml:lang", xml.escape (language_or_und language)) ∷ [])

  abbrev pub entry_events : GlossaryBook → GlossaryEntry → List Event → List Event
  entry_events book e es =
      start (codes "termEntry") ((codes "id", xml.escape e.id) ∷ [])
      ∷ start_lang book.source_language
      ∷ term_events e.term (
          end (codes "tig")
          ∷ end (codes "langSet")
          ∷ start_lang book.target_language
          ∷ term_events e.translation (
              forbidden_events e.forbidden (
                end (codes "tig")
                ∷ end (codes "langSet")
                ∷ note_events e.note (
                    descrip_events (codes "linguaray:case-sensitive") (flag_text e.case_sensitive) (
                      descrip_events (codes "linguaray:whole-word") (flag_text e.whole_word)
                        (end (codes "termEntry") ∷ es))))))

  abbrev pub all_events : GlossaryBook → List GlossaryEntry → List Event → List Event
  all_events book [] es = es
  all_events book (e ∷ entries) es = entry_events book e (all_events book entries es)

  -- The events of the whole file
  abbrev pub tbx_events : GlossaryBook → List GlossaryEntry → List Event
  tbx_events book entries =
      other
      ∷ start (codes "tbx") ((codes "type", codes "TBX-Basic") ∷ (codes "style", codes "dca") ∷ [])
      ∷ start (codes "text") []
      ∷ start (codes "body") []
      ∷ all_events book entries (end (codes "body") ∷ end (codes "text") ∷ end (codes "tbx") ∷ [])

abbrev pub reading : List GlossaryEntryInput → Option Text → TbxEntry → Text → Reading
reading entries language entry buffer = record {
  entries = entries;
  pending = some entry;
  language = language;
  capture = none;
  buffer = buffer;
}

abbrev pub last_or : Text → List Text → Text
last_or t [] = t
last_or t (f ∷ fs) = last_or f fs

module _ (xml : QuickXml) (book : GlossaryBook) (law : Unescapes xml)
    (done : List GlossaryEntryInput) where
  pub term-read :
      (t : Text) (language : Option Text) (entry : TbxEntry) (buffer : Text) (es : List Event)
      → IsVisible t
      → decode_events xml book (term_events xml t es) (reading done language entry buffer)
        ≡ decode_events xml book es
            (reading done language (record entry { terms = entry.terms ++ (language, t) ∷ [] }) t)
  unfolding decode_events on_event on_start on_end same
  term-read t language entry buffer es v = rw (law.undoes t, trim-IsVisible t v, not_empty t v) refl

  forbidden-start :
      (s : Reading)
      → on_start xml (codes "termNote") ((codes "type", codes "linguaray:forbidden") ∷ []) s
        ≡ begin_capture xml (codes "forbidden") s
  unfolding on_start attribute same
  forbidden-start s = rw (law.plain (codes "linguaray:forbidden") refl) refl

  descrip-start :
      (kind : Text) (s : Reading)
      → any (λ c. c == b'&') kind ≡ false
      → on_start xml (codes "descrip") ((codes "type", kind) ∷ []) s ≡ begin_capture xml kind s
  unfolding on_start attribute same
  descrip-start kind s h = rw (law.plain kind h) refl

  -- A note, from its start to its end
  captured :
      (name kind value plain : Text) (s : Reading) (es : List Event)
      → xml.unescape value ≡ some plain
      → decode_events xml book (text value ∷ end name ∷ es) (begin_capture xml kind s)
        ≡ decode_events xml book es
            (on_end book name (record s { capture = some kind; buffer = plain }))
  unfolding decode_events on_event
  captured name kind value plain s es u = rw u refl

  noted :
      (name kind : Text) (language : Option Text) (entry : TbxEntry) (value : Text)
      → same name (codes "termNote") || same name (codes "descrip") ≡ true
      → same name (codes "term") ≡ false
      → IsVisible value
      → on_end book name
          (record (reading done language entry []) { capture = some kind; buffer = value })
        ≡ reading done language (push_kind kind value entry) value
  unfolding on_end
  noted name kind language entry value h n v = rw (n, h, trim-IsVisible value v) refl

  term_note-kind :
      (same (codes "termNote") (codes "termNote") || same (codes "termNote") (codes "descrip"))
      ≡ true
  unfolding same
  term_note-kind = refl

  term_note-term : same (codes "termNote") (codes "term") ≡ false
  unfolding same
  term_note-term = refl

  descrip-kind :
      (same (codes "descrip") (codes "termNote") || same (codes "descrip") (codes "descrip")) ≡ true
  unfolding same
  descrip-kind = refl

  descrip-term : same (codes "descrip") (codes "term") ≡ false
  unfolding same
  descrip-term = refl

  push-forbidden :
      (entry : TbxEntry) (f : Text)
      → IsVisible f
      → push_kind (codes "forbidden") f entry
        ≡ record entry { forbidden = entry.forbidden ++ f ∷ [] }
  unfolding push_kind same
  push-forbidden entry f v = rw (not_empty f v) refl

  started :
      (name : Text) (attributes : List (Text × Text)) (s s' : Reading) (es : List Event)
      → on_start xml name attributes s ≡ s'
      → decode_events xml book (start name attributes ∷ es) s ≡ decode_events xml book es s'
  unfolding decode_events on_event
  started name attributes s s' es h = ap (decode_events xml book es) h

  -- An element that is captured, from its start to its end
  note-read :
      (name kind value plain : Text) (attributes : List (Text × Text)) (language : Option Text)
      (entry entry' : TbxEntry) (buffer : Text) (es : List Event)
      → on_start xml name attributes (reading done language entry buffer)
        ≡ begin_capture xml kind (reading done language entry buffer)
      → xml.unescape value ≡ some plain
      → same name (codes "termNote") || same name (codes "descrip") ≡ true
      → same name (codes "term") ≡ false
      → IsVisible plain
      → push_kind kind plain entry ≡ entry'
      → decode_events xml book
          (start name attributes ∷ text value ∷ end name ∷ es)
          (reading done language entry buffer)
        ≡ decode_events xml book es (reading done language entry' plain)
  note-read name kind value plain attributes language entry entry' buffer es first u h n v pushed =
      started name attributes (reading done language entry buffer)
        (begin_capture xml kind (reading done language entry buffer)) (text value ∷ end name ∷ es)
        first
      ∙ captured name kind value plain (reading done language entry buffer) es u
      ∙ ap (decode_events xml book es) (
          noted name kind language entry plain h n v
          ∙ ap (λ (e : TbxEntry). reading done language e plain) pushed)

  pub forbidden-read :
      (fs : List Text) (language : Option Text) (entry : TbxEntry) (buffer : Text) (es : List Event)
      → All IsVisible fs
      → decode_events xml book (forbidden_events xml fs es) (reading done language entry buffer)
        ≡ decode_events xml book es (
            reading done language
              (record entry { forbidden = entry.forbidden ++ fs })
              (last_or buffer fs))
  forbidden-read [] language entry buffer es h = rw (append-nil entry.forbidden) refl
  forbidden-read (f ∷ fs) language entry buffer es (h, hs) =
      note-read (codes "termNote") (codes "forbidden") (xml.escape f) f
        ((codes "type", codes "linguaray:forbidden") ∷ []) language entry
        (record entry { forbidden = entry.forbidden ++ f ∷ [] }) buffer (forbidden_events xml fs es)
        (forbidden-start (reading done language entry buffer)) (law.undoes f) term_note-kind
        term_note-term h (push-forbidden entry f h)
      ∙ forbidden-read fs language (record entry { forbidden = entry.forbidden ++ f ∷ [] }) f es hs
      ∙ ap
          (λ (all : List Text).
            decode_events xml book es
              (reading done language (record entry { forbidden = all }) (last_or f fs)))
          (append_assoc entry.forbidden (f ∷ []) fs)

  -- A description, by its kind
  descrip-read :
      (kind value plain : Text) (language : Option Text) (entry entry' : TbxEntry) (buffer : Text)
      (es : List Event)
      → any (λ c. c == b'&') kind ≡ false
      → xml.unescape value ≡ some plain
      → IsVisible plain
      → push_kind kind plain entry ≡ entry'
      → decode_events xml book
          (descrip_events xml kind value es)
          (reading done language entry buffer)
        ≡ decode_events xml book es (reading done language entry' plain)
  descrip-read kind value plain language entry entry' buffer es k u v pushed =
      note-read (codes "descrip") kind value plain ((codes "type", kind) ∷ []) language entry entry'
        buffer es (descrip-start kind (reading done language entry buffer) k) u descrip-kind
        descrip-term v pushed

  flag-IsVisible : (b : Bool) → IsVisible (flag_text b)
  unfolding is_white
  flag-IsVisible true = record { starts = refl; ends = refl }
  flag-IsVisible false = record { starts = refl; ends = refl }

  push-case :
      (b : Bool) (entry : TbxEntry)
      → push_kind (codes "linguaray:case-sensitive") (flag_text b) entry
        ≡ record entry { case_sensitive = b }
  unfolding push_kind same parse_bool trim ascii_lower
  push-case true entry = refl
  push-case false entry = refl

  push-word :
      (b : Bool) (entry : TbxEntry)
      → push_kind (codes "linguaray:whole-word") (flag_text b) entry
        ≡ record entry { whole_word = some b }
  unfolding push_kind same parse_bool trim ascii_lower
  push-word true entry = refl
  push-word false entry = refl

  push-note :
      (n : Text) (entry : TbxEntry)
      → IsVisible n
      → push_kind (codes "linguaray:note") n entry ≡ record entry { note = some n }
  unfolding push_kind same
  push-note n entry v = rw (not_empty n v) refl

  unescape-flag : (b : Bool) → xml.unescape (flag_text b) ≡ some (flag_text b)
  unescape-flag true = law.plain (codes "true") refl
  unescape-flag false = law.plain (codes "false") refl

  flags-read :
      (b c : Bool) (entry : TbxEntry) (buffer : Text) (es : List Event)
      → decode_events xml book
          (descrip_events xml
            (codes "linguaray:case-sensitive")
            (flag_text b)
            (descrip_events xml (codes "linguaray:whole-word") (flag_text c) es))
          (reading done none entry buffer)
        ≡ decode_events xml book es (
            reading done none
              (record entry { case_sensitive = b; whole_word = some c })
              (flag_text c))
  flags-read b c entry buffer es =
      descrip-read (codes "linguaray:case-sensitive") (flag_text b) (flag_text b) none entry
        (record entry { case_sensitive = b }) buffer
        (descrip_events xml (codes "linguaray:whole-word") (flag_text c) es) refl (unescape-flag b)
        (flag-IsVisible b) (push-case b entry)
      ∙ descrip-read (codes "linguaray:whole-word") (flag_text c) (flag_text c) none
          (record entry { case_sensitive = b })
          (record entry { case_sensitive = b; whole_word = some c }) (flag_text b) es refl
          (unescape-flag c) (flag-IsVisible c) (push-word c (record entry { case_sensitive = b }))

  pub tail-read :
      (note : Option Text) (b c : Bool) (entry : TbxEntry) (buffer : Text) (es : List Event)
      → IsNote note
      → entry.note ≡ none
      → decode_events xml book
          (note_events xml note (
            descrip_events xml
              (codes "linguaray:case-sensitive")
              (flag_text b)
              (descrip_events xml (codes "linguaray:whole-word") (flag_text c) es)))
          (reading done none entry buffer)
        ≡ decode_events xml book es (
            reading done none
              (record entry { note = note; case_sensitive = b; whole_word = some c })
              (flag_text c))
  tail-read none b c entry buffer es h n = flags-read b c entry buffer es ∙ rw n refl
  tail-read (some t) b c entry buffer es h n =
      descrip-read (codes "linguaray:note") (xml.escape t) t none entry
        (record entry { note = some t }) buffer
        (descrip_events xml (codes "linguaray:case-sensitive") (flag_text b)
          (descrip_events xml (codes "linguaray:whole-word") (flag_text c) es))
        refl (law.undoes t) h (push-note t entry h)
      ∙ flags-read b c (record entry { note = some t }) t es
