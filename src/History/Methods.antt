-- ===== src/History/Methods.antt =====
-- The methods of `HistoryStore` in packages/runtime/rust/src/domain/history.rs.
use linguaray.Base.{
  ℕ, ◌-◌, Bool, true, false, not, ◌&&◌, ◌||◌, Option, none, some, List, [], ◌∷◌, ◌++◌, ltb, ◌==◌,
  if◌then◌else◌, is_empty, any, find, retain, update_first, length, Text, codes, same, trim,
  le_text, contains, normalize_optional, to_u32,
}
use linguaray.Base.Sort.{sort_by}
use linguaray.Errors.{and_return, or_return, Result, ok, err, still_searching}
use linguaray.Storage.{Attempt}
use linguaray.Ids.{next_id, id_fuel}
use linguaray.History.{
  HistoryFilter, all_entries, favorites, edited, HistoryEntry, HistoryEntryInput, HistoryCounts,
  HistoryStore, required, prune_entries, persist, prune,
}

abbrev pub has_id : Text → HistoryEntry → Bool
has_id id e = same e.id id

-- The filters of `list_entries`.
unfoldable pub passes : HistoryFilter → HistoryEntry → Bool
passes all_entries e = true
passes favorites e = e.favorite
passes edited e = e.edited

module _ (to_lowercase : Text → Text) where
  unfoldable pub mentions : Text → HistoryEntry → Bool
  mentions needle e =
      is_empty needle
      || any (λ value. contains (to_lowercase value) needle)
          (e.source ∷ e.translation ∷ e.service_name ∷ e.service_id ∷ e.source_language
            ∷ e.target_language ∷ [])

  unfoldable pub needle_of : Option Text → Text
  needle_of none = to_lowercase (trim [])
  needle_of (some query) = to_lowercase (trim query)

-- `sort_by` of `list_entries`: newest first, the comparison is not `Greater`.
unfoldable pub newer_first : HistoryEntry → HistoryEntry → Bool
newer_first a b =
    ltb b.created_at a.created_at
    || (b.created_at == a.created_at
        && (ltb b.updated_at a.updated_at || (b.updated_at == a.updated_at && le_text b.id a.id)))

module _ (to_lowercase : Text → Text) where
  -- The entries that a query selects, before they are sorted.
  unfoldable pub selected : HistoryFilter → Option Text → List HistoryEntry → List HistoryEntry
  unfolding passes mentions needle_of
  selected filter query entries =
      retain (mentions to_lowercase (needle_of to_lowercase query)) (retain (passes filter) entries)

  unfoldable pub list_entries :
      ℕ
      → Attempt
      → HistoryFilter
      → Option Text
      → HistoryStore
      → Result (List HistoryEntry) × HistoryStore
  list_entries now a filter query s =
      let (r, s') = prune now a s in
      and_return (sort_by newer_first (selected filter query s'.entries)) (r, s')

unfoldable pub counts : ℕ → Attempt → HistoryStore → Result HistoryCounts × HistoryStore
counts now a s =
    let (r, s') = prune now a s in
    and_return
      (record {
        all = to_u32 (length s'.entries);
        favorites = to_u32 (length (retain (λ e. e.favorite) s'.entries));
        edited = to_u32 (length (retain (λ e. e.edited) s'.entries));
      })
      (r, s')

-- `input.id.and_then(|id| position(entry.id == id))`: the given id is not trimmed here.
unfoldable pub existing : Option Text → List HistoryEntry → Option HistoryEntry
existing none es = none
existing (some id) es = find (has_id id) es

-- The id of a new entry, and the counter that is left: the given one, trimmed, or a free one.
unfoldable pub choose_id : (ℕ → ℕ) → Option Text → HistoryStore → Option (Text × ℕ)
choose_id millis given s = elim (normalize_optional given) [
  | some id ↦ some (id, s.id_seq)
  | none ↦ next_id id_fuel millis (λ id. any (has_id id) s.entries) s.id_seq
]

abbrev pub make_entry : ℕ → HistoryEntryInput → Text → Text → Text → ℕ → Bool → HistoryEntry
make_entry now input source translation id created_at favorite = record {
  id = id;
  source = source;
  translation = translation;
  source_language = trim input.source_language;
  target_language = trim input.target_language;
  service_id = trim input.service_id;
  service_name = trim input.service_name;
  favorite = favorite;
  edited = input.edited;
  created_at = created_at;
  updated_at = now;
}

-- The entry that is stored, and the store before it is pruned and written.
unfoldable pub place :
    ℕ
    → (ℕ → ℕ)
    → HistoryEntryInput
    → Text
    → Text
    → HistoryStore
    → Result (HistoryEntry × HistoryStore)
unfolding existing choose_id
place now millis input source translation s = elim (existing input.id s.entries) [
  | some old ↦
      let entry = make_entry now input source translation old.id old.created_at old.favorite in
      ok (entry, record s { entries = update_first (has_id old.id) (λ _. entry) s.entries })
  | none ↦ elim (choose_id millis input.id s) [
    | none ↦ err still_searching
    | some (id, seq) ↦
        let entry = make_entry now input source translation id now false in
        ok (entry, record s { entries = s.entries ++ entry ∷ []; id_seq = seq })
  ]
]

-- The end of `upsert_entry`: prune, write, return the entry.
unfoldable pub store_placed :
    ℕ → Attempt → HistoryEntry → HistoryStore → Result HistoryEntry × HistoryStore
store_placed now a entry s =
    and_return entry (persist a (record s { entries = prune_entries s.entries now }))

unfoldable pub upsert_entry :
    ℕ → (ℕ → ℕ) → Attempt → HistoryEntryInput → HistoryStore → Result HistoryEntry × HistoryStore
unfolding store_placed
upsert_entry now millis a input s = or_return (required (codes "source") input.source) s λ source.
    or_return (required (codes "translation") input.translation) s λ translation.
      or_return (place now millis input source translation s) s
        λ placed. store_placed now a placed.0 placed.1

-- `updated` and `now` are the two readings of the clock.
unfoldable pub set_favorite :
    ℕ → ℕ → Attempt → Text → Bool → HistoryStore → Result (Option HistoryEntry) × HistoryStore
set_favorite updated now a id favorite s =
    if any (has_id id) s.entries
    then and_return (find (has_id id) s'.entries) (persist a s')
    else (ok none, s)
  where
    marked : List HistoryEntry
    marked =
        update_first (has_id id) (λ e. record e { favorite = favorite; updated_at = updated })
          s.entries

    s' : HistoryStore
    s' = record s { entries = prune_entries marked now }

-- `entries.retain(|entry| !entry_ids.iter().any(|id| id == &entry.id))`
unfoldable pub without_ids : List Text → List HistoryEntry → List HistoryEntry
without_ids ids es = retain (λ e. not (any (λ id. same id e.id) ids)) es

unfoldable pub delete_entries : Attempt → List Text → HistoryStore → Result ℕ × HistoryStore
delete_entries a ids s =
    let left = without_ids ids s.entries in
    let removed = length s.entries - length left in
    if ltb 0 removed
    then and_return (to_u32 removed) (persist a (record s { entries = left }))
    else (ok (to_u32 removed), record s { entries = left })

unfoldable pub clear : Attempt → HistoryStore → Result ℕ × HistoryStore
clear a s =
    if length s.entries == 0
    then (ok 0, s)
    else and_return (to_u32 (length s.entries)) (persist a (record s { entries = [] }))
