-- ===== src/History/Tests.antt =====
-- Runs of the history store, and its theorems at concrete stores.
use mathlib.Core.List.{Perm}
use linguaray.Base.{
  retain, ℕ, ◌≡◌, ◌≢◌, refl, Bool, true, false, Option, none, some, List, [], ◌∷◌, arith, Text,
  codes, trim, normalize_optional, find, all, if◌then◌else◌, same,
}
use linguaray.Base.Sort.{sort_by}
use linguaray.Errors.{and_return, or_return, ok, err, write_failed, required_field}
use linguaray.Storage.{Attempt}
use linguaray.Ids.{next_id}
use linguaray.History.{
  all_entries, HistoryEntry, HistoryEntryInput, HistoryStore, is_kept, load, prune_entries, persist,
  required, prune,
}
use linguaray.History.Methods.{has_id, list_entries, selected, upsert_entry, place, set_favorite}
use linguaray.History.Identity.{UniqueIds, upsert_entry-UniqueIds}
use linguaray.History.Persisted.{file_of, InSync}
use linguaray.History.Runs.{Run, here, next, marked, load-Run}
use linguaray.History.Retention.{is_found_in, chosen_by, NewestFirst, list_entries_lem}
use linguaray.History.Upsert.{upsert_entry-stores}

abbrev works : Attempt
works = record {
  encoded = true;
  created = true;
  staged = true;
  written = true;
  flushed = true;
  committed = true;
  dir_synced = true;
}

abbrev full_disk : Attempt
full_disk = record works { written = false }

abbrev note : Text → ℕ → Bool → HistoryEntry
note id at favorite = record {
  id = id;
  source = codes "one";
  translation = codes "uno";
  source_language = codes "en";
  target_language = codes "es";
  service_id = codes "sys";
  service_name = codes "System";
  favorite = favorite;
  edited = false;
  created_at = at;
  updated_at = at;
}

abbrev notes : List HistoryEntry
notes = note (codes "a") 5 false ∷ note (codes "b") 9 true ∷ []

abbrev library : HistoryStore
library = record {
  file = record { destination = some (file_of notes); staging = 0; quarantined = λ k. none };
  entries = notes;
  id_seq = 0;
}

abbrev typed : Option Text → HistoryEntryInput
typed id = record {
  id = id;
  source = codes " two ";
  translation = codes "dos";
  source_language = codes "en";
  target_language = codes "es ";
  service_id = codes "sys";
  service_name = codes "System";
  edited = true;
}

-- A first entry gets an id from the clock and the counter.
first_id :
    (upsert_entry 7 (λ k. 0xabc) works (typed none) (record library { entries = [] })).1.id_seq ≡ 1
unfolding upsert_entry or_return required place next_id persist prune_entries and_return trim
    normalize_optional
first_id = refl

write_fails : (upsert_entry 7 (λ k. 0xabc) full_disk (typed none) library).0 ≡ err write_failed
unfolding upsert_entry or_return required place next_id persist prune_entries and_return trim
    normalize_optional same
write_fails = refl

blank_source :
    (upsert_entry 7 (λ k. 0) works (record (typed none) { source = codes "  " }) library).0
    ≡ err (required_field (codes "source"))
unfolding upsert_entry or_return required trim
blank_source = refl

unique : UniqueIds library
unfolding same
unique = (refl, (refl, tt))

two_not_blank : trim (codes " two ") ≢ []
unfolding trim
two_not_blank h = cc h

dos_not_blank : trim (codes "dos") ≢ []
unfolding trim
dos_not_blank h = cc h

trimmed_id : trim (codes "a") ≡ codes "a"
unfolding trim
trimmed_id = refl

upsert_entry-stores_example :
    (entry : HistoryEntry) × ((upsert_entry 7 (λ k. 0) works (typed (some (codes "a"))) library).0
      ≡ ok entry)
    × (entry.source ≡ trim (codes " two "))
    × (entry.translation ≡ trim (codes "dos"))
    × (entry.updated_at ≡ 7)
    × (find
          (has_id entry.id)
          (upsert_entry 7 (λ k. 0) works (typed (some (codes "a"))) library).1.entries
        ≡ (if is_kept 7 entry then some entry else none))
upsert_entry-stores_example =
    upsert_entry-stores 7 (λ k. 0) works (typed (some (codes "a"))) library two_not_blank
      dos_not_blank (omega arith) refl trimmed_id unique

upsert_entry-UniqueIds_example :
    UniqueIds (upsert_entry 7 (λ k. 0) works (typed (some (codes "a"))) library).1
upsert_entry-UniqueIds_example =
    upsert_entry-UniqueIds 7 library (λ k. 0) works (typed (some (codes "a"))) trimmed_id unique

padded_trim : trim (codes " a") ≡ codes "a"
unfolding trim
padded_trim = refl

abbrev fold : Text → Text
fold s = s

abbrev marked_library : HistoryStore
marked_library = (set_favorite 7 7 works (codes "a") true library).1

marked-Run : Run fold library marked_library
unfolding set_favorite persist prune_entries and_return same
marked-Run = next here (
    marked 7 7 works (codes "a") true
      {e = some (record (note (codes "a") 5 true) { updated_at = 7 })} refl)

load-Run_example :
    InSync marked_library
    × ((load 9 true true works marked_library.file).entries
        ≡ prune_entries marked_library.entries 9)
load-Run_example = load-Run fold refl marked-Run 9 true works

list_entries_lem_example :
    Perm (note (codes "b") 9 true ∷ []) (
      retain (is_found_in fold none) (retain (chosen_by all_entries) (prune_entries notes 8000000)))
    × NewestFirst (note (codes "b") 9 true ∷ [])
    × (all (is_kept 8000000) (note (codes "b") 9 true ∷ []) ≡ true)
    × ((list_entries fold 8000000 works all_entries none library).1.entries
        ≡ prune_entries notes 8000000)
unfolding list_entries prune persist prune_entries and_return selected sort_by trim
list_entries_lem_example =
    list_entries_lem fold 8000000 works all_entries none library (note (codes "b") 9 true ∷ []) refl
