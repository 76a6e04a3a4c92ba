-- ===== src/Glossary/Hits.antt =====
-- `record_hits` and `flush_hits` of packages/runtime/rust/src/domain/glossary.rs.
use linguaray.Base.{
  ℕ, ◌-◌, none, some, List, [], ◌∷◌, leb, if◌then◌else◌, any, update_first, is_empty, Text, same,
  le_text, saturating_inc,
}
use linguaray.Errors.{Result, ok, err}
use linguaray.Storage.{Attempt}
use linguaray.Glossary.{
  GlossaryEntry, GlossaryMatch, GlossaryStore, hit_flush_interval, get_book_file, insert_book,
  write_book,
}
use linguaray.Glossary.Entries.{is_entry}

-- `BTreeSet::insert`
unfoldable pub insert_id : Text → List Text → List Text
insert_id id [] = id ∷ []
insert_id id (x ∷ xs) =
    let rest = insert_id id xs in
    if same id x then x ∷ xs else if le_text id x then id ∷ x ∷ xs else x ∷ rest

abbrev pub hit_entry : GlossaryEntry → GlossaryEntry
hit_entry e = record e { hits = saturating_inc e.hits }

-- One match: its entry counts it, unless the book or the entry has gone.
unfoldable pub record_hit : GlossaryMatch → GlossaryStore → GlossaryStore
unfolding insert_id
record_hit hit s = elim (get_book_file hit.book_id s.books) [
  | none ↦ s
  | some b ↦
      let b' = record b { entries = update_first (is_entry hit.entry_id) hit_entry b.entries } in
      if any (is_entry hit.entry_id) b.entries
      then record s {
        books = insert_book b' s.books;
        pending_hits = insert_id hit.book_id s.pending_hits;
      }
      else s
]

unfoldable pub count_hits : List GlossaryMatch → GlossaryStore → GlossaryStore
unfolding record_hit
count_hits [] s = s
count_hits (hit ∷ rest) s = count_hits rest (record_hit hit s)

-- The loop of `flush_hits`: the first book that cannot be written ends it. `a id` is what the
-- system answers for that book.
unfoldable pub write_pending :
    (Text → Attempt) → List Text → GlossaryStore → Result (Unit {0}) × GlossaryStore
unfolding write_book
write_pending a [] s = (ok tt, s)
write_pending a (id ∷ rest) s = elim (get_book_file id s.books) [
  | none ↦ write_pending a rest s
  | some b ↦ elim (write_book (a id) b s).0 [
    | err e ↦ (err e, (write_book (a id) b s).1)
    | ok _ ↦ write_pending a rest (write_book (a id) b s).1
  ]
]

unfoldable pub flush_hits : ℕ → (Text → Attempt) → GlossaryStore → Result (Unit {0}) × GlossaryStore
unfolding write_pending
flush_hits now a s =
    write_pending a s.pending_hits (record s { last_hit_flush = now; pending_hits = [] })

-- A failed flush is only logged.
unfoldable pub record_hits :
    ℕ → (Text → Attempt) → List GlossaryMatch → GlossaryStore → GlossaryStore
unfolding count_hits flush_hits
record_hits now a hits s =
    let s' = count_hits hits s in
    if is_empty hits
    then s
    else if leb hit_flush_interval (now - s'.last_hit_flush)
    then (flush_hits now a s').1
    else s'
