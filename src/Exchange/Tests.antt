-- ===== src/Exchange/Tests.antt =====
-- The exchange formats at a concrete glossary, with a crate for each that knows its texts.
use linguaray.Base.{
  true, false, ◌≡◌, refl, none, some, List, [], ◌∷◌, ◌++◌, map, All, codes, trim, is_white,
}
use linguaray.Errors.{ok}
use linguaray.Glossary.{GlossaryBook, GlossaryEntry}
use linguaray.Exchange.{Csv, csv_header, csv_row, encode_csv, decode_csv}
use linguaray.Exchange.Pieces.{IsVisible, IsPiece}
use linguaray.Exchange.CsvTrip.{IsExchangeable, input_of, trimmed_rows, decode_csv-encode_csv}
use linguaray.Exchange.Tbx.{
  start, end, text, general_ref, QuickXml, default_entry, Reading, decode_events, encode_tbx,
  decode_tbx,
}
use linguaray.Exchange.References.{decode_events-drops_reference}
use linguaray.Exchange.Printed.{print, events_in, document}
use linguaray.Exchange.TbxReads.{Unescapes}
use linguaray.Exchange.TbxTrip.{IsReadable, decode_tbx-encode_tbx}

abbrev entry : GlossaryEntry
entry = record {
  id = codes "e";
  term = codes "api";
  translation = codes "interface";
  forbidden = codes "port" ∷ codes "plug in" ∷ [];
  note = some (codes "short");
  case_sensitive = true;
  whole_word = false;
  hits = 3;
  created_at = 1;
  updated_at = 2;
}

abbrev plain_entry : GlossaryEntry
plain_entry = record entry { term = codes "key"; forbidden = []; note = none; whole_word = true }

abbrev entries : List GlossaryEntry
entries = entry ∷ plain_entry ∷ []

IsVisible-api : IsVisible (codes "api")
unfolding is_white
IsVisible-api = record { starts = refl; ends = refl }

IsVisible-key : IsVisible (codes "key")
unfolding is_white
IsVisible-key = record { starts = refl; ends = refl }

IsVisible-interface : IsVisible (codes "interface")
unfolding is_white
IsVisible-interface = record { starts = refl; ends = refl }

IsVisible-port : IsVisible (codes "port")
unfolding is_white
IsVisible-port = record { starts = refl; ends = refl }

IsVisible-plug : IsVisible (codes "plug in")
unfolding is_white
IsVisible-plug = record { starts = refl; ends = refl }

IsVisible-note : IsVisible (codes "short")
unfolding is_white
IsVisible-note = record { starts = refl; ends = refl }

IsPiece-port : IsPiece (codes "port")
IsPiece-port = record { visible = IsVisible-port; whole = refl }

IsPiece-plug : IsPiece (codes "plug in")
IsPiece-plug = record { visible = IsVisible-plug; whole = refl }

entries-IsExchangeable : All IsExchangeable entries
entries-IsExchangeable = (
  record {
    term = IsVisible-api;
    translation = IsVisible-interface;
    forbidden = (IsPiece-port, (IsPiece-plug, tt));
    note = IsVisible-note;
  },
  (
    record { term = IsVisible-key; translation = IsVisible-interface; forbidden = tt; note = tt },
    tt,
  ),
)

abbrev csv : Csv
csv = record {
  write = λ records. some (codes "written");
  read = λ content. some (map trim csv_header, trimmed_rows (map csv_row entries));
}

decode_csv-encode_csv_example :
    (encode_csv csv entries ≡ ok (codes "written"))
    × (decode_csv csv (codes "written") ≡ ok (map input_of entries))
decode_csv-encode_csv_example =
    decode_csv-encode_csv csv entries (codes "written") refl refl entries-IsExchangeable

abbrev book : GlossaryBook
book = record {
  id = codes "b";
  name = codes "Terms";
  enabled = true;
  source_language = some (codes "en-US");
  target_language = none;
  entry_count = 2;
  created_at = 1;
  updated_at = 2;
}

-- Texts without an ampersand
abbrev unescaped : QuickXml
unescaped = record { events = λ content. []; escape = λ t. t; unescape = some }

abbrev xml : QuickXml
xml = record unescaped { events = λ content. events_in (document unescaped book entries) }

xml-Unescapes : Unescapes xml
xml-Unescapes = record { undoes = λ t. refl; plain = λ t h. refl }

entries-IsReadable : All IsReadable entries
entries-IsReadable = (
  record {
    term = IsVisible-api;
    translation = IsVisible-interface;
    forbidden = (IsVisible-port, (IsVisible-plug, tt));
    note = IsVisible-note;
  },
  (
    record { term = IsVisible-key; translation = IsVisible-interface; forbidden = tt; note = tt },
    tt,
  ),
)

decode_tbx-encode_tbx_example :
    (encode_tbx xml book entries ≡ print (document xml book entries))
    × (decode_tbx xml book (encode_tbx xml book entries) ≡ ok (map input_of entries))
decode_tbx-encode_tbx_example =
    decode_tbx-encode_tbx xml book xml-Unescapes entries refl entries-IsReadable

abbrev in_term : Reading
in_term = record {
  entries = [];
  pending = some default_entry;
  language = some (codes "en");
  capture = none;
  buffer = [];
}

IsVisible-joined : IsVisible (codes "R" ++ codes "D")
unfolding is_white
IsVisible-joined = record { starts = refl; ends = refl }

decode_events-drops_reference_example :
    decode_events xml book
      (start (codes "term") []
        ∷ text (codes "R")
        ∷ general_ref (codes "amp")
        ∷ text (codes "D")
        ∷ end (codes "term")
        ∷ [])
      in_term
    ≡ decode_events xml book [] (record in_term {
      pending = some (record default_entry { terms = (some (codes "en"), codes "RD") ∷ [] });
      capture = none;
      buffer = codes "RD";
    })
decode_events-drops_reference_example =
    decode_events-drops_reference xml book (codes "R") (codes "D") (codes "amp") default_entry
      in_term [] refl refl refl IsVisible-joined
