-- ===== src/Glossary/Books.antt =====
-- The methods of `GlossaryStore` in packages/runtime/rust/src/domain/glossary.rs that read or
-- change its books. The clock and the answers of the file system are arguments.
use linguaray.Base.{
  ℕ, ◌+◌, ◌^◌, ◌%◌, Bool, true, false, not, ◌&&◌, ◌||◌, Option, none, some, List, [], ◌∷◌, map, ltb,
  ◌==◌, if◌then◌else◌, is_empty, any, retain, length, Text, codes, same, trim, le_text,
  normalize_optional, bump_u64,
}
use linguaray.Base.Sort.{sort_by}
use linguaray.Errors.{Result, ok, err, delete_failed, still_searching}
use linguaray.Storage.{Attempt}
use linguaray.Ids.{next_id, id_fuel}
use linguaray.Glossary.{
  GlossaryEntry, GlossaryEntryInput, GlossaryBook, GlossaryBookInput, GlossaryImportReport,
  BookFile, GlossaryStore, to_book, is_book, get_book_file, insert_book, require_non_empty,
  validate_book_id, require_book, forget, commit, and_then,
}
use linguaray.Glossary.Entries.{has_term, clean, apply_to_book}

-- By creation, then by id.
unfoldable pub book_order : GlossaryBook → GlossaryBook → Bool
book_order a b =
    ltb a.created_at b.created_at || (a.created_at == b.created_at && le_text a.id b.id)

unfoldable pub list_books : GlossaryStore → List GlossaryBook
unfolding book_order to_book
list_books s = sort_by book_order (map to_book s.books)

unfoldable pub get_book : Text → GlossaryStore → Option GlossaryBook
unfolding to_book
get_book id s = elim (get_book_file id s.books) [ none ↦ none | some b ↦ some (to_book b) ]

-- The book that an update or a creation puts into the store, and the counter that is left.
unfoldable pub placed_book :
    ℕ → (ℕ → ℕ) → Text → GlossaryBookInput → GlossaryStore → Result (BookFile × ℕ)
unfolding validate_book_id require_book
placed_book now millis name input s = elim (normalize_optional input.id) [
  | some id ↦ elim (validate_book_id id) [
    | err e ↦ err e
    | ok _ ↦ elim (require_book id s) [
      | err e ↦ err e
      | ok b ↦ ok (
        record b {
          name = name;
          enabled = input.enabled;
          source_language = normalize_optional input.source_language;
          target_language = normalize_optional input.target_language;
          updated_at = now;
        },
        s.id_seq,
      )
    ]
  ]
  | none ↦ elim (next_id id_fuel millis (λ id. any (is_book id) s.books) s.id_seq) [
    | none ↦ err still_searching
    | some (id, seq) ↦ ok (
      record {
        id = id;
        name = name;
        enabled = input.enabled;
        source_language = normalize_optional input.source_language;
        target_language = normalize_optional input.target_language;
        created_at = now;
        updated_at = now;
        entries = [];
      },
      seq,
    )
  ]
]

unfoldable pub upsert_book :
    ℕ → (ℕ → ℕ) → Attempt → GlossaryBookInput → GlossaryStore → Result GlossaryBook × GlossaryStore
unfolding placed_book commit and_then
upsert_book now millis a input s =
    and_then (require_non_empty (codes "name") input.name, s)
      λ name _.
        and_then (placed_book now millis name input s, s)
          λ placed _.
            and_then
              (commit a placed.0.id
                (record s { books = insert_book placed.0 s.books; id_seq = placed.1 }))
              λ _ s'. (ok (to_book placed.0), s')

-- `removed` is the answer of `fs::remove_file`.
unfoldable pub delete_book : Bool → Text → GlossaryStore → Result Bool × GlossaryStore
unfolding validate_book_id
delete_book removed id s = elim (validate_book_id id) [
  | err e ↦ (err e, s)
  | ok _ ↦
      let s' = record s {
        books = retain (λ b. not (same b.id id)) s.books;
        pending_hits = forget id s.pending_hits;
        generation = bump_u64 s.generation;
      } in
      let unlinked = record (s.files id) { destination = none } in
      let files = λ (other : Text). if same id other then unlinked else s.files other in
      if not (any (is_book id) s.books) then (ok false, s) else elim (s.files id).destination [
        | none ↦ (ok true, s')
        | some _ ↦
            if removed then (ok true, record s' { files = files }) else (err delete_failed, s')
      ]
]

unfoldable pub apply_entry :
    ℕ → (ℕ → ℕ) → Text → GlossaryEntryInput → GlossaryStore → Result GlossaryEntry × GlossaryStore
unfolding and_then
apply_entry now millis id input s =
    and_then (clean input, s)
      λ c _.
        and_then (require_book id s, s)
          λ b _.
            and_then (apply_to_book now millis input c b s.id_seq, s)
              λ applied _. (
                ok applied.0,
                record s { books = insert_book applied.1 s.books; id_seq = applied.2 },
              )

unfoldable pub upsert_entry :
    ℕ
    → (ℕ → ℕ)
    → Attempt
    → Text
    → GlossaryEntryInput
    → GlossaryStore
    → Result GlossaryEntry × GlossaryStore
unfolding apply_entry
upsert_entry now millis a id input s =
    and_then (validate_book_id id, s)
      λ _ _.
        and_then (apply_entry now millis id input s)
          λ entry s'. and_then (commit a id s') λ _ s''. (ok entry, s'')

-- `+= 1` on a `u32`
abbrev pub bump_u32 : ℕ → ℕ
bump_u32 n = (n + 1) % 2 ^ 32

-- One round of `import_entries`.
unfoldable pub import_one :
    ℕ
    → (ℕ → ℕ)
    → Text
    → GlossaryEntryInput
    → GlossaryImportReport
    → GlossaryStore
    → GlossaryImportReport × GlossaryStore
import_one now millis id input report s =
    let existed : Bool = elim (get_book_file id s.books) [
      | none ↦ false
      | some b ↦ any (has_term (trim input.term)) b.entries
    ] in
    let (r, s') = apply_entry now millis id input s in
    if is_empty (trim input.term) || is_empty (trim input.translation)
    then (record report { skipped = bump_u32 report.skipped }, s)
    else elim r [
      | err _ ↦ (record report { skipped = bump_u32 report.skipped }, s')
      | ok _ ↦
          if existed
          then (record report { updated = bump_u32 report.updated }, s')
          else (record report { inserted = bump_u32 report.inserted }, s')
    ]

-- `millis k` is the clock of the round with `k` inputs left.
unfoldable pub import_loop :
    ℕ
    → (ℕ → ℕ → ℕ)
    → Text
    → List GlossaryEntryInput
    → GlossaryImportReport
    → GlossaryStore
    → GlossaryImportReport × GlossaryStore
unfolding import_one
import_loop now millis id [] report s = (report, s)
import_loop now millis id (input ∷ rest) report s =
    let round = import_one now (millis (length rest)) id input report s in
    import_loop now millis id rest round.0 round.1

abbrev pub empty_report : GlossaryImportReport
empty_report = record { inserted = 0; updated = 0; skipped = 0 }

unfoldable pub import_entries :
    ℕ
    → (ℕ → ℕ → ℕ)
    → Attempt
    → Text
    → List GlossaryEntryInput
    → GlossaryStore
    → Result GlossaryImportReport × GlossaryStore
unfolding import_loop and_then
import_entries now millis a id inputs s =
    and_then (validate_book_id id, s)
      λ _ _.
        and_then (require_book id s, s)
          λ _ _.
            let (report, s') = import_loop now millis id inputs empty_report s in
            if ltb 0 report.inserted || ltb 0 report.updated
            then and_then (commit a id s') (λ _ s''. (ok report, s''))
            else (ok report, s')

unfoldable pub delete_entry :
    ℕ → Attempt → Text → Text → GlossaryStore → Result Bool × GlossaryStore
unfolding and_then
delete_entry now a id entry s =
    and_then (validate_book_id id, s)
      λ _ _.
        and_then (require_book id s, s)
          λ b _.
            let left = retain (λ e. not (same e.id entry)) b.entries in
            let b' = record b { entries = left; updated_at = now } in
            if length left == length b.entries
            then (ok false, s)
            else and_then (commit a id (record s { books = insert_book b' s.books }))
                (λ _ s'. (ok true, s'))
