-- ===== src/Vocabulary.antt =====
-- packages/runtime/rust/src/domain/vocabulary.rs: the vocabulary book. Its entries stay until the
-- user deletes them; a damaged file is put aside and the book starts empty.
pub mod Persisted
mod Runs
pub mod Saved
pub mod Listing
mod Tests
use linguaray.Base.{
  ℕ, ◌-◌, Bool, true, false, not, ◌&&◌, ◌||◌, Option, none, some, List, [], ◌∷◌, ◌++◌, ltb, ◌==◌,
  if◌then◌else◌, is_empty, any, find, retain, update_first, length, Text, codes, same, trim,
  le_text, contains, normalize_optional, to_u32,
}
use linguaray.Base.Sort.{sort_by}
use linguaray.Errors.{
  Error, Result, ok, err, and_return, or_return, required_field, encode_failed, read_failed,
  parse_failed, unsupported_version, still_searching,
}
use linguaray.Storage.{Attempt, Directory, Outcome, write_bytes, quarantine}
use linguaray.Ids.{next_id, id_fuel}

abbrev pub vocabulary_version : ℕ
vocabulary_version = 1

pub data VocabularyFilter : Type 0 where
  all_entries favorites : VocabularyFilter

pub record VocabularyEntry : Type 0 where
  pub id : Text
  pub word : Text
  pub translation : Text
  pub source_language : Text
  pub target_language : Text
  pub source : Text
  pub note : Option Text
  pub favorite : Bool
  pub created_at : ℕ
  pub updated_at : ℕ

pub record VocabularyEntryInput : Type 0 where
  pub id : Option Text
  pub word : Text
  pub translation : Text
  pub source_language : Text
  pub target_language : Text
  pub source : Text
  pub note : Option Text

pub record VocabularyFile : Type 0 where
  pub version : ℕ
  pub entries : List VocabularyEntry

-- What `serde_json::from_str::<VocabularyFile>` makes of the text of a file.
pub data Contents : Type 0 where
  malformed : Contents
  document : VocabularyFile → Contents

pub record VocabularyStore : Type 0 where
  pub file : Directory Contents
  pub entries : List VocabularyEntry
  pub id_seq : ℕ

abbrev pub default_file : VocabularyFile
default_file = record { version = vocabulary_version; entries = [] }

unfoldable pub required : Text → Text → Result Text
required field value =
    let value' = trim value in if is_empty value' then err (required_field field) else ok value'

unfoldable pub persist : Attempt → VocabularyStore → Result (Unit {0}) × VocabularyStore
unfolding write_bytes
persist a s = if a.encoded then (o.result, record s { file = o.final }) else (err encode_failed, s)
  where
    o : Outcome (Unit {0}) Contents
    o =
        write_bytes a (document (record { version = vocabulary_version; entries = s.entries }))
          s.file

unfoldable pub validate_backup : Bool → Option Contents → Result (Unit {0})
validate_backup readable none = ok tt
validate_backup false (some c) = err read_failed
validate_backup true (some malformed) = err parse_failed
validate_backup true (some (document f)) =
    if f.version == vocabulary_version then ok tt else err (unsupported_version f.version)

-- `readable` is whether the file can be read, `renamed` whether a damaged one can be put aside.
unfoldable pub load : ℕ → Bool → Bool → Directory Contents → VocabularyStore
unfolding quarantine
load now readable renamed d = elim d.destination [
  | none ↦ start default_file d
  | some malformed ↦
      if readable then start default_file (quarantine now renamed d) else start default_file d
  | some (document f) ↦
      if readable
      then if f.version == vocabulary_version
        then start f d
        else start default_file (quarantine now renamed d)
      else start default_file d
]
  where
    start : VocabularyFile → Directory Contents → VocabularyStore
    start f d' = record { file = d'; entries = f.entries; id_seq = 0 }

abbrev pub has_id : Text → VocabularyEntry → Bool
has_id id e = same e.id id

unfoldable pub passes : VocabularyFilter → VocabularyEntry → Bool
passes all_entries e = true
passes favorites e = e.favorite

-- `unwrap_or("")`
abbrev pub text_of : Option Text → Text
text_of none = []
text_of (some t) = t

-- `sort_by` of `list_entries`: the comparison is not `Greater`.
unfoldable pub newer_first : VocabularyEntry → VocabularyEntry → Bool
newer_first a b =
    ltb b.created_at a.created_at
    || (b.created_at == a.created_at
        && (ltb b.updated_at a.updated_at || (b.updated_at == a.updated_at && le_text b.id a.id)))

module _ (to_lowercase : Text → Text) where
  unfoldable pub mentions : Text → VocabularyEntry → Bool
  mentions needle e =
      is_empty needle
      || any (λ value. contains (to_lowercase value) needle)
          (e.word ∷ e.translation ∷ text_of e.note ∷ e.source_language ∷ e.target_language ∷ [])

  -- The entries that a filter and a query select, before they are sorted.
  unfoldable pub selected :
      VocabularyFilter → Option Text → List VocabularyEntry → List VocabularyEntry
  unfolding passes mentions
  selected filter query entries =
      retain (mentions (to_lowercase (trim (text_of query)))) (retain (passes filter) entries)

  unfoldable pub list_entries :
      VocabularyFilter → Option Text → VocabularyStore → List VocabularyEntry
  unfolding selected newer_first
  list_entries filter query s = sort_by newer_first (selected filter query s.entries)

-- The given id is not trimmed here.
unfoldable pub existing : Option Text → List VocabularyEntry → Option VocabularyEntry
existing none es = none
existing (some id) es = find (has_id id) es

-- The id of a new entry, and the counter that is left.
unfoldable pub choose_id : (ℕ → ℕ) → Option Text → VocabularyStore → Option (Text × ℕ)
choose_id millis given s = elim (normalize_optional given) [
  | some id ↦ some (id, s.id_seq)
  | none ↦ next_id id_fuel millis (λ id. any (has_id id) s.entries) s.id_seq
]

abbrev pub make_entry : ℕ → VocabularyEntryInput → Text → Text → Text → ℕ → Bool → VocabularyEntry
make_entry now input word translation id created_at favorite = record {
  id = id;
  word = word;
  translation = translation;
  source_language = trim input.source_language;
  target_language = trim input.target_language;
  source = trim input.source;
  note = normalize_optional input.note;
  favorite = favorite;
  created_at = created_at;
  updated_at = now;
}

-- The entry that is stored, and the store before it is written.
unfoldable pub place :
    ℕ
    → (ℕ → ℕ)
    → VocabularyEntryInput
    → Text
    → Text
    → VocabularyStore
    → Result (VocabularyEntry × VocabularyStore)
unfolding existing choose_id
place now millis input word translation s = elim (existing input.id s.entries) [
  | some old ↦
      let entry = make_entry now input word translation old.id old.created_at old.favorite in
      ok (entry, record s { entries = update_first (has_id old.id) (λ _. entry) s.entries })
  | none ↦ elim (choose_id millis input.id s) [
    | none ↦ err still_searching
    | some (id, seq) ↦
        let entry = make_entry now input word translation id now false in
        ok (entry, record s { entries = s.entries ++ entry ∷ []; id_seq = seq })
  ]
]

unfoldable pub upsert_entry :
    ℕ
    → (ℕ → ℕ)
    → Attempt
    → VocabularyEntryInput
    → VocabularyStore
    → Result VocabularyEntry × VocabularyStore
upsert_entry now millis a input s = or_return (required (codes "word") input.word) s λ word.
    or_return (required (codes "translation") input.translation) s λ translation.
      or_return (place now millis input word translation s) s
        λ placed. and_return placed.0 (persist a placed.1)

-- One entry is changed in place, found by its id, and the book written.
unfoldable pub change :
    (VocabularyEntry → VocabularyEntry)
    → Attempt
    → Text
    → VocabularyStore
    → Result (Option VocabularyEntry) × VocabularyStore
change f a id s =
    let s' = record s { entries = update_first (has_id id) f s.entries } in
    if any (has_id id) s.entries
    then and_return (find (has_id id) s'.entries) (persist a s')
    else (ok none, s)

unfoldable pub set_favorite :
    ℕ → Attempt → Text → Bool → VocabularyStore → Result (Option VocabularyEntry) × VocabularyStore
set_favorite now a id favorite s =
    change (λ e. record e { favorite = favorite; updated_at = now }) a id s

unfoldable pub set_note :
    ℕ
    → Attempt
    → Text
    → Option Text
    → VocabularyStore
    → Result (Option VocabularyEntry) × VocabularyStore
set_note now a id text s =
    change (λ e. record e { note = normalize_optional text; updated_at = now }) a id s

unfoldable pub without_ids : List Text → List VocabularyEntry → List VocabularyEntry
without_ids ids es = retain (λ e. not (any (λ id. same id e.id) ids)) es

unfoldable pub delete_entries : Attempt → List Text → VocabularyStore → Result ℕ × VocabularyStore
delete_entries a ids s =
    let left = without_ids ids s.entries in
    let removed = length s.entries - length left in
    if ltb 0 removed
    then and_return (to_u32 removed) (persist a (record s { entries = left }))
    else (ok (to_u32 removed), record s { entries = left })
