-- ===== src/Exchange/References.antt =====
-- The reader of TBX passes over the references in a text, such as `&amp;`, which quick_xml reports
-- as events of their own.
use linguaray.Base.{◌≡◌, refl, none, some, List, [], ◌∷◌, ◌++◌, codes, Text, same}
use linguaray.Glossary.{GlossaryBook}
use linguaray.Exchange.Pieces.{IsVisible, not_empty, trim-IsVisible}
use linguaray.Exchange.Tbx.{
  Event, start, end, text, general_ref, QuickXml, TbxEntry, Reading, append_text, on_event,
  on_start, on_end, decode_events,
}

module _ (xml : QuickXml) (book : GlossaryBook) where
  -- What a captured text adds
  pub text-read :
      (value plain kind : Text) (s : Reading) (es : List Event)
      → s.capture ≡ some kind
      → xml.unescape value ≡ some plain
      → decode_events xml book (text value ∷ es) s ≡ decode_events xml book es (append_text plain s)
  unfolding decode_events on_event
  text-read value plain kind s es c u = rw (c, u) refl

  -- The texts on both sides of a reference are taken together, and the character that it stands
  -- for is lost.
  pub decode_events-drops_reference :
      (a b name : Text) (entry : TbxEntry) (s : Reading) (es : List Event)
      → s.pending ≡ some entry
      → xml.unescape a ≡ some a
      → xml.unescape b ≡ some b
      → IsVisible (a ++ b)
      → decode_events xml book
          (start (codes "term") [] ∷ text a ∷ general_ref name ∷ text b ∷ end (codes "term") ∷ es)
          s
        ≡ decode_events xml book es (record s {
          pending = some (record entry { terms = entry.terms ++ (s.language, a ++ b) ∷ [] });
          capture = none;
          buffer = a ++ b;
        })
  unfolding decode_events on_event on_start on_end same
  decode_events-drops_reference a b name entry s es p u v w =
      rw (u, v, p, trim-IsVisible (a ++ b) w, not_empty (a ++ b) w) refl
