-- ===== src/Vocabulary/Tests.antt =====
-- Runs of the vocabulary, and its theorems at a concrete book.
use linguaray.Base.{
  ℕ, ◌≡◌, refl, Bool, true, false, none, some, List, [], ◌∷◌, Text, codes, trim, normalize_optional,
  same,
}
use linguaray.Errors.{ok, and_return}
use linguaray.Storage.{Attempt}
use linguaray.Vocabulary.{
  VocabularyEntry, VocabularyStore, document, vocabulary_version, load, set_note, change, persist,
}
use linguaray.Vocabulary.Persisted.{InSync}
use linguaray.Vocabulary.Runs.{Run, here, next, noted, load_whole-Run}

abbrev works : Attempt
works = record {
  encoded = true;
  created = true;
  staged = true;
  written = true;
  flushed = true;
  committed = true;
  dir_synced = true;
}

abbrev saved : Text → ℕ → Bool → VocabularyEntry
saved id at favorite = record {
  id = id;
  word = codes "one";
  translation = codes "uno";
  source_language = codes "en";
  target_language = codes "es";
  source = [];
  note = none;
  favorite = favorite;
  created_at = at;
  updated_at = at;
}

abbrev words : List VocabularyEntry
words = saved (codes "a") 5 false ∷ saved (codes "b") 9 true ∷ []

abbrev book : VocabularyStore
book = record {
  file = record {
    destination = some (document (record { version = vocabulary_version; entries = words }));
    staging = 0;
    quarantined = λ k. none;
  };
  entries = words;
  id_seq = 0;
}

-- A blank note is no note.
blank_note :
    (set_note 7 works (codes "b") (some (codes " ")) book).0
    ≡ ok (some (record (saved (codes "b") 9 true) { updated_at = 7 }))
unfolding set_note change and_return persist normalize_optional trim same
blank_note = refl

abbrev noted_book : VocabularyStore
noted_book = (set_note 7 works (codes "b") (some (codes "x")) book).1

noted-Run : Run book noted_book
unfolding set_note change and_return persist normalize_optional trim same
noted-Run = next here (
    noted 7 works (codes "b") (some (codes "x"))
      {e = some (record (saved (codes "b") 9 true) { updated_at = 7; note = some (codes "x") })}
      refl)

load_whole-Run_example :
    InSync noted_book × ((load 9 true true noted_book.file).entries ≡ noted_book.entries)
load_whole-Run_example = load_whole-Run refl noted-Run 9 true
