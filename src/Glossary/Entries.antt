-- ===== src/Glossary/Entries.antt =====
-- `apply_entry`, `delete_entry`, `list_entries` and `count_entries` of
-- packages/runtime/rust/src/domain/glossary.rs, on the book that they are about.
use Prim.Native.Nat.{min}
use linguaray.Base.{
  ℕ, ◌+◌, ◌-◌, ◌^◌, ◌%◌, Bool, true, false, not, ◌&&◌, ◌||◌, Option, none, some, List, [], ◌∷◌,
  ◌++◌, map, leb, ltb, ◌==◌, if◌then◌else◌, is_empty, any, find, retain, update_first, length, take,
  drop, Text, codes, same, trim, le_text, eq_ignore_ascii_case, contains, normalize_optional,
}
use linguaray.Base.Sort.{sort_by}
use linguaray.Errors.{Result, ok, err, term_exists, still_searching}
use linguaray.Ids.{next_id, id_fuel}
use linguaray.Glossary.{
  GlossaryEntry, GlossaryEntryInput, BookFile, GlossaryStore, require_non_empty, require_book,
}

abbrev pub is_entry : Text → GlossaryEntry → Bool
is_entry id e = same e.id id

abbrev pub has_term : Text → GlossaryEntry → Bool
has_term term e = eq_ignore_ascii_case e.term term

-- The texts of an input after `require_non_empty`, `trim` and `normalize_optional`.
pub record Cleaned : Type 0 where
  pub term : Text
  pub translation : Text
  pub forbidden : List Text
  pub note : Option Text

unfoldable pub clean_forbidden : List Text → List Text
clean_forbidden values = retain (λ v. not (is_empty v)) (map trim values)

unfoldable pub clean : GlossaryEntryInput → Result Cleaned
unfolding require_non_empty clean_forbidden
clean input = elim (require_non_empty (codes "term") input.term) [
  | err e ↦ err e
  | ok term ↦ elim (require_non_empty (codes "translation") input.translation) [
    | err e ↦ err e
    | ok translation ↦ ok (record {
      term = term;
      translation = translation;
      forbidden = clean_forbidden input.forbidden;
      note = normalize_optional input.note;
    })
  ]
]

-- The id that the entry goes under, and the counter that is left. A given id may not take a term
-- from another entry; with none given the term finds its entry, or a free id is made.
unfoldable pub entry_id : (ℕ → ℕ) → Option Text → Text → List GlossaryEntry → ℕ → Result (Text × ℕ)
entry_id millis given term entries seq = elim (normalize_optional given) [
  | some id ↦ elim (find (has_term term) entries) [
    | some other ↦ if same other.id id then ok (id, seq) else err (term_exists term)
    | none ↦ ok (id, seq)
  ]
  | none ↦ elim (find (has_term term) entries) [
    | some e ↦ ok (e.id, seq)
    | none ↦ elim (next_id id_fuel millis (λ id. any (is_entry id) entries) seq) [
      | none ↦ err still_searching
      | some (id, seq') ↦ ok (id, seq')
    ]
  ]
]

abbrev pub update_entry : ℕ → GlossaryEntryInput → Cleaned → GlossaryEntry → GlossaryEntry
update_entry now input c e = record e {
  term = c.term;
  translation = c.translation;
  forbidden = c.forbidden;
  note = c.note;
  case_sensitive = input.case_sensitive;
  whole_word = input.whole_word;
  updated_at = now;
}

abbrev pub new_entry : ℕ → GlossaryEntryInput → Cleaned → Text → GlossaryEntry
new_entry now input c id = record {
  id = id;
  term = c.term;
  translation = c.translation;
  forbidden = c.forbidden;
  note = c.note;
  case_sensitive = input.case_sensitive;
  whole_word = input.whole_word;
  hits = 0;
  created_at = now;
  updated_at = now;
}

-- The entry of that id is rewritten in place, or a new one is pushed.
unfoldable pub write_entry :
    ℕ
    → GlossaryEntryInput
    → Cleaned
    → Text
    → List GlossaryEntry
    → GlossaryEntry × List GlossaryEntry
write_entry now input c id entries = elim (find (is_entry id) entries) [
  | some e ↦
      (update_entry now input c e, update_first (is_entry id) (update_entry now input c) entries)
  | none ↦ (new_entry now input c id, entries ++ new_entry now input c id ∷ [])
]

-- `apply_entry` on the book's file: the entry, the book and the counter.
unfoldable pub apply_to_book :
    ℕ
    → (ℕ → ℕ)
    → GlossaryEntryInput
    → Cleaned
    → BookFile
    → ℕ
    → Result (GlossaryEntry × BookFile × ℕ)
unfolding entry_id write_entry
apply_to_book now millis input c b seq = elim (entry_id millis input.id c.term b.entries seq) [
  | err e ↦ err e
  | ok (id, seq') ↦
      let (entry, entries) = write_entry now input c id b.entries in
      ok (entry, record b { entries = entries; updated_at = now }, seq')
]

module _ (to_lowercase : Text → Text) where
  unfoldable pub entry_matches_query : GlossaryEntry → Option Text → Bool
  entry_matches_query e query = elim (normalize_optional query) [
    | none ↦ true
    | some query ↦
        let needle = to_lowercase query in
        contains (to_lowercase e.term) needle
        || contains (to_lowercase e.translation) needle
        || any (λ value. contains (to_lowercase value) needle) e.forbidden
        || elim e.note [ none ↦ false | some note ↦ contains (to_lowercase note) needle ]
  ]

  -- Newest first, then by term.
  unfoldable pub entry_order : GlossaryEntry → GlossaryEntry → Bool
  entry_order a b =
      ltb b.created_at a.created_at || (b.created_at == a.created_at && le_text a.term b.term)

  -- All that a query selects, sorted.
  unfoldable pub all_entries : Option Text → BookFile → List GlossaryEntry
  unfolding entry_matches_query entry_order
  all_entries query b = sort_by entry_order (retain (λ e. entry_matches_query e query) b.entries)

  -- `entries[offset..end]`; a limit of 0 is no limit.
  unfoldable pub page : ℕ → ℕ → List GlossaryEntry → List GlossaryEntry
  page offset limit es =
      if leb (length es) offset
      then []
      else let last = if limit == 0 then length es else min (length es) (offset + limit) in
        take (last - offset) (drop offset es)

  unfoldable pub list_entries :
      Text → Option Text → ℕ → ℕ → GlossaryStore → Result (List GlossaryEntry)
  unfolding page
  list_entries id query offset limit s = elim (require_book id s) [
    | err e ↦ err e
    | ok b ↦ ok (page offset limit (all_entries query b))
  ]

  -- `count() as u32`
  unfoldable pub count_entries : Text → Option Text → GlossaryStore → Result ℕ
  count_entries id query s = elim (require_book id s) [
    | err e ↦ err e
    | ok b ↦ ok (length (retain (λ e. entry_matches_query e query) b.entries) % 2 ^ 32)
  ]
