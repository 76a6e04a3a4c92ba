-- ===== src/Glossary.antt =====
-- packages/runtime/rust/src/domain/glossary.rs: term books, their entries and the store that
-- holds them. `BTreeMap<String, BookFile>` is a list of books in the order of their ids, which
-- are its keys; the files are a directory for each book id.
pub mod Entries
pub mod Books
pub mod Matching
pub mod Compliance
mod Tests
pub mod Hits
pub mod Terms
pub mod Written
use Prim.Native.Nat.{◌*◌}
use linguaray.Base.{
  ℕ, ◌-◌, ◌^◌, Bool, true, false, not, ◌&&◌, ◌||◌, Option, none, some, List, [], ◌∷◌, map, leb, ltb,
  ◌==◌, if◌then◌else◌, is_empty, any, all, find, retain, length, Text, codes, same, trim, le_text,
  is_ascii_alphanumeric, bump_u64, ◌%◌,
}
use linguaray.Errors.{
  Error, Result, ok, err, required_field, no_such_book, book_id_required, invalid_book_id,
  encode_failed, read_failed, parse_failed,
}
use linguaray.Storage.{Attempt, Directory, Outcome, write_bytes}

pub record GlossaryEntry : Type 0 where
  pub id : Text
  pub term : Text
  pub translation : Text
  pub forbidden : List Text
  pub note : Option Text
  pub case_sensitive : Bool
  pub whole_word : Bool
  pub hits : ℕ
  pub created_at : ℕ
  pub updated_at : ℕ

pub record GlossaryEntryInput : Type 0 where
  pub id : Option Text
  pub term : Text
  pub translation : Text
  pub forbidden : List Text
  pub note : Option Text
  pub case_sensitive : Bool
  pub whole_word : Bool

pub record GlossaryBook : Type 0 where
  pub id : Text
  pub name : Text
  pub enabled : Bool
  pub source_language : Option Text
  pub target_language : Option Text
  pub entry_count : ℕ
  pub created_at : ℕ
  pub updated_at : ℕ

pub record GlossaryBookInput : Type 0 where
  pub id : Option Text
  pub name : Text
  pub enabled : Bool
  pub source_language : Option Text
  pub target_language : Option Text

pub record GlossaryImportReport : Type 0 where
  pub inserted : ℕ
  pub updated : ℕ
  pub skipped : ℕ

pub record BookFile : Type 0 where
  pub id : Text
  pub name : Text
  pub enabled : Bool
  pub source_language : Option Text
  pub target_language : Option Text
  pub created_at : ℕ
  pub updated_at : ℕ
  pub entries : List GlossaryEntry

-- `entries.len() as u32`
unfoldable pub to_book : BookFile → GlossaryBook
to_book b = record {
  id = b.id;
  name = b.name;
  enabled = b.enabled;
  source_language = b.source_language;
  target_language = b.target_language;
  entry_count = length b.entries % 2 ^ 32;
  created_at = b.created_at;
  updated_at = b.updated_at;
}

-- A term found in a text; the offsets are those of its UTF-8 bytes.
pub record GlossaryMatch : Type 0 where
  pub book_id : Text
  pub entry_id : Text
  pub term : Text
  pub matched_text : Text
  pub translation : Text
  pub forbidden : List Text
  pub start : ℕ
  pub stop : ℕ

-- `HIT_FLUSH_INTERVAL`, in milliseconds
abbrev pub hit_flush_interval : ℕ
hit_flush_interval = 5 * 1000

-- The store without its cache of matchers, which is in `Matching/Cache`.
pub record GlossaryStore : Type 0 where
  pub files : Text → Directory BookFile
  pub books : List BookFile
  pub generation : ℕ
  pub pending_hits : List Text
  pub last_hit_flush : ℕ
  pub id_seq : ℕ

abbrev pub is_book : Text → BookFile → Bool
is_book id b = same b.id id

-- `books.get(id)`
abbrev pub get_book_file : Text → List BookFile → Option BookFile
get_book_file id = find (is_book id)

-- `BTreeMap::insert` and a write through `get_mut`: the books stay in the order of their ids.
unfoldable pub insert_book : BookFile → List BookFile → List BookFile
insert_book b [] = b ∷ []
insert_book b (c ∷ cs) =
    let rest = insert_book b cs in
    if same b.id c.id then b ∷ cs else if le_text b.id c.id then b ∷ c ∷ cs else c ∷ rest

unfoldable pub require_non_empty : Text → Text → Result Text
require_non_empty name value =
    let value' = trim value in if is_empty value' then err (required_field name) else ok value'

abbrev pub is_id_char : ℕ → Bool
is_id_char c = is_ascii_alphanumeric c || c == b'-' || c == b'_'

unfoldable pub validate_book_id : Text → Result (Unit {0})
validate_book_id id =
    if is_empty id
    then err book_id_required
    else if not (all is_id_char id)
    then err (invalid_book_id id)
    else ok tt

unfoldable pub require_book : Text → GlossaryStore → Result BookFile
require_book id s = elim (get_book_file id s.books) [ none ↦ err (no_such_book id) | some b ↦ ok b ]

-- `write_book`: the file of the book is replaced, or left as it was.
unfoldable pub write_book : Attempt → BookFile → GlossaryStore → Result (Unit {0}) × GlossaryStore
unfolding write_bytes
write_book a b s =
    let o = write_bytes a b (s.files b.id) in
    let files = λ (id : Text). if same b.id id then o.final else s.files id in
    if a.encoded then (o.result, record s { files = files }) else (err encode_failed, s)

-- `pending_hits` is a set of book ids.
abbrev pub forget : Text → List Text → List Text
forget id ids = retain (λ other. not (same other id)) ids

-- `commit`: one more generation, and the book is written with the hits that it holds.
unfoldable pub commit : Attempt → Text → GlossaryStore → Result (Unit {0}) × GlossaryStore
unfolding write_book
commit a id s =
    let s' = record s {
      generation = bump_u64 s.generation;
      pending_hits = forget id s.pending_hits;
    } in
    elim (get_book_file id s.books) [
      | none ↦ (err (no_such_book id), s')
      | some b ↦ write_book a b s'
    ]

-- The `?` operator in a method, after a part that may have changed the store.
unfoldable pub and_then {ℓ κ} :
    {A : Type ℓ} {B : Type κ}
    → Result A × GlossaryStore
    → (A → GlossaryStore → Result B × GlossaryStore)
    → Result B × GlossaryStore
and_then (ok v, s) k = k v s
and_then (err e, s) k = (err e, s)

-- `read_to_string` and `serde_json::from_str` of a file: unreadable, not JSON of a book, or a book.
pub data Loaded : Type 0 where
  unreadable malformed : Loaded
  book : BookFile → Loaded

-- A file with a blank id takes the stem of its name.
unfoldable pub load_book_file : Text → Loaded → Result BookFile
unfolding validate_book_id
load_book_file stem unreadable = err read_failed
load_book_file stem malformed = err parse_failed
load_book_file stem (book b) =
    let b' = if is_empty (trim b.id) then record b { id = stem } else b in
    elim (validate_book_id b'.id) [ err e ↦ err e | ok _ ↦ ok b' ]

-- The loop of `load` over the `.json` files of the directory: a file that is refused is skipped.
unfoldable pub load_books : List (Text × Loaded) → List BookFile → List BookFile
unfolding load_book_file insert_book
load_books [] books = books
load_books ((stem, found) ∷ rest) books =
    load_books rest
      (elim (load_book_file stem found) [ err e ↦ books | ok b ↦ insert_book b books ])

-- The loop of `validate_backup`: the first file that is refused decides.
unfoldable pub validate_backup : List (Text × Loaded) → Result (Unit {0})
unfolding load_book_file
validate_backup [] = ok tt
validate_backup ((stem, found) ∷ rest) =
    let others = validate_backup rest in
    elim (load_book_file stem found) [ err e ↦ err e | ok b ↦ others ]
