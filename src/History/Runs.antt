-- ===== src/History/Runs.antt =====
-- Runs of the history: calls that return `Ok`, one after the other, and a restart.
use mathlib.Core.Path.{subst}
use linguaray.Base.{ℕ, ◌≡◌, Bool, true, Option, List, Text}
use linguaray.Errors.{Result, ok}
use linguaray.Storage.{Attempt}
use linguaray.History.{
  HistoryFilter, HistoryEntry, HistoryEntryInput, HistoryCounts, HistoryStore, prune_entries, load,
}
use linguaray.History.Methods.{
  list_entries, counts, upsert_entry, set_favorite, delete_entries, clear,
}
use linguaray.History.Persisted.{
  InSync, Persisted, list_entries-Persisted, counts-Persisted, upsert_entry-Persisted,
  set_favorite-Persisted, delete_entries-Persisted, clear-Persisted, load-InSync,
}

-- One call of a method that returns `Ok`
pub data Step (to_lowercase : Text → Text) (s u : HistoryStore) : Type 0 where
  listed :
      (now : ℕ) (a : Attempt) (filter : HistoryFilter) (query : Option Text)
      {es : List HistoryEntry}
      → list_entries to_lowercase now a filter query s ≡ (ok es, u)
      → Step to_lowercase s u
  counted :
      (now : ℕ) (a : Attempt) {c : HistoryCounts}
      → counts now a s ≡ (ok c, u)
      → Step to_lowercase s u
  upserted :
      (now : ℕ) (millis : ℕ → ℕ) (a : Attempt) (input : HistoryEntryInput) {e : HistoryEntry}
      → upsert_entry now millis a input s ≡ (ok e, u)
      → Step to_lowercase s u
  marked :
      (updated now : ℕ) (a : Attempt) (id : Text) (favorite : Bool) {e : Option HistoryEntry}
      → set_favorite updated now a id favorite s ≡ (ok e, u)
      → Step to_lowercase s u
  deleted :
      (a : Attempt) (ids : List Text) {n : ℕ}
      → delete_entries a ids s ≡ (ok n, u)
      → Step to_lowercase s u
  cleared : (a : Attempt) {n : ℕ} → clear a s ≡ (ok n, u) → Step to_lowercase s u

pub data Run (to_lowercase : Text → Text) (s : HistoryStore) : HistoryStore → Type 0 where
  here : Run to_lowercase s s
  next : {t u : HistoryStore} → Run to_lowercase s t → Step to_lowercase t u → Run to_lowercase s u

-- What a call leaves behind when it returns `Ok`
returned {ℓ} :
    {A : Type ℓ} (s u : HistoryStore) (r : Result A × HistoryStore) (v : A)
    → r ≡ (ok v, u)
    → Persisted s r
    → InSync u
returned s u r v h p = subst (Persisted s) h p

module _ (to_lowercase : Text → Text) where
  Step-InSync : {s u : HistoryStore} → Step to_lowercase s u → InSync s → InSync u
  Step-InSync {s} {u} (listed now a filter query h) p =
      returned s u _ _ h (list_entries-Persisted s a to_lowercase now filter query p)
  Step-InSync {s} {u} (counted now a h) p = returned s u _ _ h (counts-Persisted s a now p)
  Step-InSync {s} {u} (upserted now millis a input h) p =
      returned s u _ _ h (upsert_entry-Persisted s a now millis input)
  Step-InSync {s} {u} (marked updated now a id favorite h) p =
      returned s u _ _ h (set_favorite-Persisted s a updated now id favorite p)
  Step-InSync {s} {u} (deleted a ids h) p = returned s u _ _ h (delete_entries-Persisted s a ids p)
  Step-InSync {s} {u} (cleared a h) p = returned s u _ _ h (clear-Persisted s a p)

  Run-InSync : {s u : HistoryStore} → InSync s → Run to_lowercase s u → InSync u
  Run-InSync h here = h
  Run-InSync h (next r step) = Step-InSync step (Run-InSync h r)

  -- From a store in step with its file, any run of calls that return `Ok` leaves one in step, and a
  -- restart then reads back its entries, less what has expired.
  pub load-Run :
      {s u : HistoryStore}
      → InSync s
      → Run to_lowercase s u
      → (now : ℕ) (renamed : Bool) (a : Attempt)
      → InSync u × ((load now true renamed a u.file).entries ≡ prune_entries u.entries now)
  load-Run {s} {u} h run now renamed a =
      (Run-InSync h run, load-InSync now renamed a u (Run-InSync h run))
