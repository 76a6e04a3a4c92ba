-- ===== src/Vocabulary/Listing.antt =====
-- The listing of the vocabulary.
use mathlib.Core.List.{Perm}
use linguaray.Base.{◌≡◌, true, ◌||◌, Option, arith, Text, le_text_total, le_text_trans}
use linguaray.Base.Sort.{IsSorted, sort_by-IsSorted, sort_by-perm}
use linguaray.Vocabulary.{
  VocabularyFilter, VocabularyEntry, VocabularyStore, newer_first, selected, list_entries,
}

newer_first_total : (a b : VocabularyEntry) → (newer_first a b || newer_first b a) ≡ true
unfolding newer_first
newer_first_total a b = ground (arith, le_text_total a.id b.id)

newer_first_trans :
    (a b c : VocabularyEntry)
    → newer_first a b ≡ true
    → newer_first b c ≡ true
    → newer_first a c ≡ true
unfolding newer_first
newer_first_trans a b c h k = ground (arith, le_text_trans c.id b.id a.id)

-- A listing is a permutation of the entries that the filter and the query select, newest first.
pub list_entries-Sorted :
    (to_lowercase : Text → Text) (filter : VocabularyFilter) (query : Option Text)
    (s : VocabularyStore)
    → Perm (list_entries to_lowercase filter query s) (selected to_lowercase filter query s.entries)
      × IsSorted newer_first (list_entries to_lowercase filter query s)
unfolding list_entries
list_entries-Sorted to_lowercase filter query s =
    let found = selected to_lowercase filter query s.entries in
    (
      sort_by-perm newer_first found,
      sort_by-IsSorted newer_first newer_first_total newer_first_trans found,
    )
