-- ===== src/Exchange/TbxTrip.antt =====
-- A glossary that is written as TBX is read back from it, if its texts need no escape.
use mathlib.Core.List.{append_assoc, append-nil}
use linguaray.Base.{
  ℕ, ◌≡◌, refl, sym, ap, ◌∙◌, true, Option, none, some, List, [], ◌∷◌, ◌++◌, map, arith, codes,
  Text, same, All, eq_ignore_ascii_case, eq_ignore_ascii_case_iff,
}
use linguaray.Errors.{ok}
use linguaray.Glossary.{GlossaryBook, GlossaryEntry, GlossaryEntryInput}
use linguaray.Exchange.{flag_text}
use linguaray.Exchange.Pieces.{IsVisible}
use linguaray.Exchange.CsvTrip.{IsNote, input_of}
use linguaray.Exchange.Tbx.{
  Event, start, end, QuickXml, TbxEntry, Reading, on_event, on_start, on_end, decode_events,
  decode_tbx, initial, entries_of, encode_tbx, attribute, language_or_und, finish_tbx_entry,
  default_entry, finished, index_or, another_index, language_term_index, term_index, primary,
}
use linguaray.Exchange.Printed.{print, events_in, document, events_in-document, encode_tbx-document}
use linguaray.Exchange.TbxReads.{
  Unescapes, term_events, forbidden_events, note_events, descrip_events, start_lang, entry_events,
  all_events, tbx_events, reading, last_or, term-read, forbidden-read, tail-read,
}

-- The loop between two entries
abbrev idle : List GlossaryEntryInput → Text → Reading
idle entries buffer = record {
  entries = entries;
  pending = none;
  language = none;
  capture = none;
  buffer = buffer;
}

-- The texts of an entry are visible.
pub record IsReadable (e : GlossaryEntry) : Type 0 where
  pub term : IsVisible e.term
  pub translation : IsVisible e.translation
  pub forbidden : All IsVisible e.forbidden
  pub note : IsNote e.note

eq_ignore_refl : (t : Text) → eq_ignore_ascii_case t t ≡ true
eq_ignore_refl t = (eq_ignore_ascii_case_iff t t).1 refl

source_index :
    (l : Option Text) (t : Text) (second : Option Text × Text)
    → elim (language_term_index ((some (language_or_und l), t) ∷ second ∷ []) l none) as (λ x. ℕ) [
      | some i ↦ i
      | none ↦ 0
    ]
      ≡ 0
unfolding language_term_index term_index
source_index none t second = refl
source_index (some l) t second = rw (eq_ignore_refl (primary l)) refl

target_index :
    (l : Option Text) (t : Text) (first : Option Text × Text)
    → index_or
        (language_term_index (first ∷ (some (language_or_und l), t) ∷ []) l (some 0))
        (another_index (first ∷ (some (language_or_und l), t) ∷ []) 0)
      ≡ some 1
unfolding language_term_index term_index
target_index none t first = refl
target_index (some l) t first = rw (eq_ignore_refl (primary l)) refl

module _ (xml : QuickXml) (book : GlossaryBook) (law : Unescapes xml) where
  abbrev both_terms : GlossaryEntry → TbxEntry
  both_terms e = record default_entry {
    terms =
        (some (language_or_und book.source_language), e.term)
        ∷ (some (language_or_und book.target_language), e.translation)
        ∷ [];
  }

  abbrev whole_entry : GlossaryEntry → TbxEntry
  whole_entry e = record (both_terms e) {
    forbidden = e.forbidden;
    note = e.note;
    case_sensitive = e.case_sensitive;
    whole_word = some e.whole_word;
  }

  finish-whole : (e : GlossaryEntry) → finish_tbx_entry (whole_entry e) book ≡ some (input_of e)
  unfolding finish_tbx_entry
  finish-whole e = ground (
    arith,
    source_index book.source_language e.term
        (some (language_or_und book.target_language), e.translation),
    target_index book.target_language e.translation
        (some (language_or_und book.source_language), e.term),
  )

  head-read :
      (e : GlossaryEntry) (done : List GlossaryEntryInput) (buffer : Text) (es : List Event)
      → IsReadable e
      → decode_events xml book
          (start (codes "termEntry") ((codes "id", xml.escape e.id) ∷ [])
            ∷ start_lang xml book.source_language
            ∷ term_events xml e.term (
                end (codes "tig")
                ∷ end (codes "langSet")
                ∷ start_lang xml book.target_language
                ∷ term_events xml e.translation es))
          (idle done buffer)
        ≡ decode_events xml book es (
            reading done (some (language_or_und book.target_language)) (both_terms e) e.translation)
  unfolding decode_events on_event on_start on_end same attribute
  head-read e done buffer es h =
      let source : Option Text = xml.unescape (xml.escape (language_or_und book.source_language)) in
      let target : Option Text = xml.unescape (xml.escape (language_or_und book.target_language)) in
      let first : TbxEntry = record default_entry { terms = (source, e.term) ∷ [] } in
      term-read xml book law done e.term source default_entry buffer
        (end (codes "tig")
          ∷ end (codes "langSet")
          ∷ start_lang xml book.target_language
          ∷ term_events xml e.translation es)
        h.term
      ∙ term-read xml book law done e.translation target first e.term es h.translation
      ∙ rw
          (
            law.undoes (language_or_und book.source_language),
            law.undoes (language_or_und book.target_language),
          )
          refl

  -- `</tig></langSet>`
  lang-end :
      (language : Option Text) (entry : TbxEntry) (done : List GlossaryEntryInput) (buffer : Text)
      (es : List Event)
      → decode_events xml book
          (end (codes "tig") ∷ end (codes "langSet") ∷ es)
          (reading done language entry buffer)
        ≡ decode_events xml book es (reading done none entry buffer)
  unfolding decode_events on_event on_end same
  lang-end language entry done buffer es = refl

  finished-whole :
      (e : GlossaryEntry) (done : List GlossaryEntryInput)
      → finished (some (whole_entry e)) book done ≡ done ++ input_of e ∷ []
  finished-whole e done = ground (arith, finish-whole e)

  entry-end :
      (e : GlossaryEntry) (done : List GlossaryEntryInput) (buffer : Text) (es : List Event)
      → decode_events xml book
          (end (codes "termEntry") ∷ es)
          (reading done none (whole_entry e) buffer)
        ≡ decode_events xml book es (idle (done ++ input_of e ∷ []) buffer)
  unfolding decode_events on_event on_end same
  entry-end e done buffer es =
      ap (λ (l : List GlossaryEntryInput). decode_events xml book es (idle l buffer))
        (finished-whole e done)

  -- One entry, from its start to its end
  entry-read :
      (e : GlossaryEntry) (done : List GlossaryEntryInput) (buffer : Text) (es : List Event)
      → IsReadable e
      → decode_events xml book (entry_events xml book e es) (idle done buffer)
        ≡ decode_events xml book es (idle (done ++ input_of e ∷ []) (flag_text e.whole_word))
  entry-read e done buffer es h =
      let flags : List Event =
        descrip_events xml (codes "linguaray:case-sensitive") (flag_text e.case_sensitive) (
          descrip_events xml (codes "linguaray:whole-word") (flag_text e.whole_word)
            (end (codes "termEntry") ∷ es)) in
      let noted : TbxEntry = record (both_terms e) { forbidden = e.forbidden } in
      let target : Option Text = some (language_or_und book.target_language) in
      head-read e done buffer
        (forbidden_events xml e.forbidden
          (end (codes "tig") ∷ end (codes "langSet") ∷ note_events xml e.note flags))
        h
      ∙ forbidden-read xml book law done e.forbidden target (both_terms e) e.translation
          (end (codes "tig") ∷ end (codes "langSet") ∷ note_events xml e.note flags) h.forbidden
      ∙ lang-end target noted done (last_or e.translation e.forbidden)
          (note_events xml e.note flags)
      ∙ tail-read xml book law done e.note e.case_sensitive e.whole_word noted
          (last_or e.translation e.forbidden) (end (codes "termEntry") ∷ es) h.note refl
      ∙ entry-end e done (flag_text e.whole_word) es

  document_end :
      (done : List GlossaryEntryInput) (buffer : Text)
      → decode_events xml book
          (end (codes "body") ∷ end (codes "text") ∷ end (codes "tbx") ∷ [])
          (idle done buffer)
        ≡ ok (idle done buffer)
  unfolding decode_events on_event on_end same
  document_end done buffer = refl

  entries-read :
      (entries : List GlossaryEntry) (done : List GlossaryEntryInput) (buffer : Text)
      → All IsReadable entries
      → (s : Reading) × (decode_events xml book
            (all_events xml book entries
              (end (codes "body") ∷ end (codes "text") ∷ end (codes "tbx") ∷ []))
            (idle done buffer)
          ≡ ok s)
        × (s.entries ≡ done ++ map input_of entries)
  entries-read [] done buffer h =
      (idle done buffer, document_end done buffer, sym (append-nil done))
  entries-read (e ∷ entries) done buffer (h, hs) =
      let (s, read, all) =
        entries-read entries (done ++ input_of e ∷ []) (flag_text e.whole_word) hs in
      (
        s,
        entry-read e done buffer
              (all_events xml book entries
                (end (codes "body") ∷ end (codes "text") ∷ end (codes "tbx") ∷ []))
              h
            ∙ read,
        all ∙ append_assoc done (input_of e ∷ []) (map input_of entries),
      )

  document-read :
      (entries : List GlossaryEntry)
      → decode_events xml book (tbx_events xml book entries) (initial xml book)
        ≡ decode_events xml book
            (all_events xml book entries
              (end (codes "body") ∷ end (codes "text") ∷ end (codes "tbx") ∷ []))
            (idle [] [])
  unfolding decode_events on_event on_start same
  document-read entries = refl

  -- encode_tbx writes the document of the entries: for each of them its elements and its texts,
  -- escaped, marked up as XML. If the crate reports those of the document as events, each text in
  -- one event and no ends of lines, then decoding what was encoded gives every entry, in its order,
  -- as an input with all its fields, whatever the languages of the book, provided that the texts of
  -- the entries are trimmed and not empty, and that unescape undoes escape and leaves a text
  -- without an ampersand alone.
  pub decode_tbx-encode_tbx :
      (entries : List GlossaryEntry)
      → xml.events (print (document xml book entries)) ≡ events_in (document xml book entries)
      → All IsReadable entries
      → (encode_tbx xml book entries ≡ print (document xml book entries))
        × (decode_tbx xml book (encode_tbx xml book entries) ≡ ok (map input_of entries))
  unfolding decode_tbx
  decode_tbx-encode_tbx entries reported h =
      let (s, read, all) = entries-read entries [] [] h in
      let written = encode_tbx-document xml book entries in
      let given : xml.events (encode_tbx xml book entries) ≡ tbx_events xml book entries =
        ap xml.events written ∙ reported ∙ events_in-document xml book entries in
      (
        written,
        ap
              (λ (events : List Event).
                entries_of xml book (decode_events xml book events (initial xml book)))
              given
            ∙ ap (entries_of xml book) (document-read entries ∙ read)
            ∙ ap ok all,
      )
