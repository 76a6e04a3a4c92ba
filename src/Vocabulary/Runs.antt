-- ===== src/Vocabulary/Runs.antt =====
-- Runs of the vocabulary: calls that return `Ok`, one after the other, and a restart.
use mathlib.Core.Path.{subst}
use linguaray.Base.{ℕ, ◌≡◌, Bool, true, Option, List, Text}
use linguaray.Errors.{Result, ok}
use linguaray.Storage.{Attempt}
use linguaray.Vocabulary.{
  VocabularyEntry, VocabularyEntryInput, VocabularyStore, load, upsert_entry, set_favorite,
  set_note, delete_entries,
}
use linguaray.Vocabulary.Persisted.{
  InSync, Persisted, upsert_entry-Saved, set_favorite-Saved, set_note-Saved, delete_entries-Saved,
  load-whole,
}

-- One call of a method that returns `Ok`; a listing changes nothing.
pub data Step (s u : VocabularyStore) : Type 0 where
  upserted :
      (now : ℕ) (millis : ℕ → ℕ) (a : Attempt) (input : VocabularyEntryInput) {e : VocabularyEntry}
      → upsert_entry now millis a input s ≡ (ok e, u)
      → Step s u
  marked :
      (now : ℕ) (a : Attempt) (id : Text) (favorite : Bool) {e : Option VocabularyEntry}
      → set_favorite now a id favorite s ≡ (ok e, u)
      → Step s u
  noted :
      (now : ℕ) (a : Attempt) (id : Text) (text : Option Text) {e : Option VocabularyEntry}
      → set_note now a id text s ≡ (ok e, u)
      → Step s u
  deleted : (a : Attempt) (ids : List Text) {n : ℕ} → delete_entries a ids s ≡ (ok n, u) → Step s u

pub data Run (s : VocabularyStore) : VocabularyStore → Type 0 where
  here : Run s s
  next : {t u : VocabularyStore} → Run s t → Step t u → Run s u

-- What a call leaves behind when it returns `Ok`
returned {ℓ} :
    {A : Type ℓ} (s u : VocabularyStore) (r : Result A × VocabularyStore) (v : A)
    → r ≡ (ok v, u)
    → Persisted s r
    → InSync u
returned s u r v h p = subst (Persisted s) h p

Step-InSync : {s u : VocabularyStore} → Step s u → InSync s → InSync u
Step-InSync {s} {u} (upserted now millis a input h) p =
    returned s u _ _ h (upsert_entry-Saved s a now millis input)
Step-InSync {s} {u} (marked now a id favorite h) p =
    returned s u _ _ h (set_favorite-Saved s a now id favorite p)
Step-InSync {s} {u} (noted now a id text h) p =
    returned s u _ _ h (set_note-Saved s a now id text p)
Step-InSync {s} {u} (deleted a ids h) p = returned s u _ _ h (delete_entries-Saved s a ids p)

Run-InSync : {s u : VocabularyStore} → InSync s → Run s u → InSync u
Run-InSync h here = h
Run-InSync h (next r step) = Step-InSync step (Run-InSync h r)

-- From a store in step with its file, any run of calls that return `Ok` leaves one in step, and a
-- restart then reads back exactly its entries.
pub load_whole-Run :
    {s u : VocabularyStore}
    → InSync s
    → Run s u
    → (now : ℕ) (renamed : Bool) → InSync u × ((load now true renamed u.file).entries ≡ u.entries)
load_whole-Run {s} {u} h run now renamed =
    (Run-InSync h run, (load-whole now renamed u (Run-InSync h run)).0)
