-- ===== src/History/Identity.antt =====
-- The ids of the history: which methods keep them apart.
use linguaray.Base.{
  IsTrimmed, ℕ, ◌≡◌, refl, inl, inr, Bool, Option, none, some, List, arith, Bool-cases, Text, any,
  same_iff, find-some,
}
use linguaray.Base.Keys.{Unique, Unique-retain, Unique-update_first, Unique-append}
use linguaray.Errors.{and_return-1, or_return-Keeps, ok}
use linguaray.Storage.{Attempt}
use linguaray.History.{HistoryEntry, HistoryEntryInput, HistoryStore, prune_entries}
use linguaray.History.Methods.{has_id, existing, place, store_placed, upsert_entry, set_favorite}
use linguaray.History.Persisted.{entries-persist}
use linguaray.History.Placing.{place_cases, choose_id-free}

-- No two entries of the store share an id.
abbrev pub UniqueIds : HistoryStore → Type 0
UniqueIds s = Unique (λ e. e.id) s.entries

pub existing-id :
    (given : Option Text) (es : List HistoryEntry) {old : HistoryEntry}
    → existing given es ≡ some old
    → given ≡ some old.id
unfolding existing
existing-id none es h = cc
existing-id (some id) es {old} h = ground (arith, find-some (has_id id) es old, same_iff old.id id)

pub entries-store_placed :
    (now : ℕ) (a : Attempt) (entry : HistoryEntry) (s : HistoryStore)
    → (store_placed now a entry s).1.entries ≡ prune_entries s.entries now
unfolding store_placed
entries-store_placed now a entry s = rw and_return-1 (entries-persist a _)

store_placed-UniqueIds :
    (now : ℕ) (a : Attempt) (entry : HistoryEntry) (s : HistoryStore)
    → UniqueIds s
    → UniqueIds (store_placed now a entry s).1
unfolding prune_entries
store_placed-UniqueIds now a entry s u =
    rw entries-store_placed (Unique-retain (λ e. e.id) _ s.entries u)

module _ (now : ℕ) (s : HistoryStore) where
  pub place-UniqueIds :
      (millis : ℕ → ℕ) (input : HistoryEntryInput) (source translation : Text)
      (entry : HistoryEntry) (t : HistoryStore)
      → IsTrimmed input.id
      → UniqueIds s
      → place now millis input source translation s ≡ ok (entry, t)
      → UniqueIds t
  place-UniqueIds millis input source translation entry t trimmed u h =
      elim (place_cases now millis input source translation s h) [
        | inl (old, r) ↦
            let names : entry.id ≡ old.id = rw r.made refl in
            rw r.stored (
              Unique-update_first (λ e. e.id) (has_id old.id) (λ _. entry) s.entries
                (λ e m. ground (arith, same_iff e.id old.id)) u)
        | inr (id, seq, r) ↦
            let names : entry.id ≡ id = rw r.made refl in
            rw r.stored (
              Unique-append (λ e. e.id) s.entries entry u
                (rw names (choose_id-free millis input.id s trimmed r.unnamed r.chosen)))
      ]

  -- An upsert keeps the ids of the store apart, whether it returns `Ok` or an error, if the id that
  -- the caller gives has no blanks around it.
  pub upsert_entry-UniqueIds :
      (millis : ℕ → ℕ) (a : Attempt) (input : HistoryEntryInput)
      → IsTrimmed input.id
      → UniqueIds s
      → UniqueIds (upsert_entry now millis a input s).1
  unfolding upsert_entry
  upsert_entry-UniqueIds millis a input trimmed u = or_return-Keeps UniqueIds _ s _ u λ source _.
      or_return-Keeps UniqueIds _ s _ u λ translation _.
        or_return-Keeps UniqueIds _ s _ u λ placed e.
          store_placed-UniqueIds now a placed.0 placed.1
            (place-UniqueIds millis input source translation placed.0 placed.1 trimmed u e)

  -- So do marking a favorite, and deleting.
  set_favorite-UniqueIds :
      (updated : ℕ) (a : Attempt) (id : Text) (favorite : Bool)
      → UniqueIds s
      → UniqueIds (set_favorite updated now a id favorite s).1
  unfolding set_favorite prune_entries
  set_favorite-UniqueIds updated a id favorite u = elim (Bool-cases (any (has_id id) s.entries)) [
    | inl e ↦ rw e (
        rw and_return-1 (
          rw entries-persist (
            Unique-retain (λ e. e.id) _ _
              (Unique-update_first (λ e. e.id) (has_id id) _ s.entries (λ e m. refl) u))))
    | inr n ↦ rw n u
  ]
