-- ===== src/History/Persisted.antt =====
-- What the history file holds after each method, and what a restart makes of it.
use linguaray.Base.{
  ℕ, ◌≡◌, refl, inl, inr, Bool, true, Option, some, List, arith, Bool-cases, Text, length, ap,
  retain-eq_of_length, length-retain-le, ◌==◌, any, ◌∙◌, ltb, ◌-◌, not, same,
}
use linguaray.Errors.{and_return, or_return, Result, ok, err}
use linguaray.Storage.{Attempt, Directory}
use linguaray.History.{
  HistoryFile, HistoryFilter, HistoryEntry, HistoryEntryInput, HistoryStore, Contents, document,
  history_version, persist, prune, prune_entries, load, is_kept, read_file,
}
use linguaray.History.Methods.{
  list_entries, counts, place, has_id, without_ids, store_placed, upsert_entry, set_favorite,
  delete_entries, clear,
}

abbrev pub file_of : List HistoryEntry → Contents
file_of entries = document (record { version = history_version; entries = entries })

-- The file holds what the store holds.
abbrev pub InSync : HistoryStore → Type 0
InSync s = s.file.destination ≡ some (file_of s.entries)

-- After a call that returned `Ok` the file holds what the store holds; after an error it is the
-- file of before.
abbrev pub Persisted {ℓ} : {A : Type ℓ} → HistoryStore → Result A × HistoryStore → Type 0
Persisted s (ok _, s') = InSync s'
Persisted s (err _, s') = s'.file.destination ≡ s.file.destination

pub entries-persist : (a : Attempt) (s : HistoryStore) → (persist a s).1.entries ≡ s.entries
unfolding persist
entries-persist a s = ground arith

persist-Persisted : (a : Attempt) (s : HistoryStore) → Persisted s (persist a s)
unfolding persist
persist-Persisted a s = ground arith

and_return-Persisted {ℓ} :
    {A : Type ℓ} (v : A) (s : HistoryStore) (p : Result (Unit {0}) × HistoryStore)
    → Persisted s p
    → Persisted s (and_return v p)
unfolding and_return
and_return-Persisted v s (ok _, s') h = h
and_return-Persisted v s (err _, s') h = h

or_return-Persisted {ℓ κ} :
    {A : Type ℓ} {B : Type κ} (r : Result A) (s : HistoryStore) (k : A → Result B × HistoryStore)
    → ((v : A) → r ≡ ok v → Persisted s (k v))
    → Persisted s (or_return r s k)
unfolding or_return
or_return-Persisted (ok v) s k h = h v refl
or_return-Persisted (err e) s k h = refl

pub file-place :
    (now : ℕ) (millis : ℕ → ℕ) (input : HistoryEntryInput) (source translation : Text)
    (s : HistoryStore) {p : HistoryEntry × HistoryStore}
    → place now millis input source translation s ≡ ok p
    → p.1.file ≡ s.file
unfolding place
file-place now millis input source translation s h = ground arith

Persisted-transfer {ℓ} :
    {A : Type ℓ} (s t : HistoryStore) (p : Result A × HistoryStore)
    → t.file ≡ s.file
    → Persisted t p
    → Persisted s p
Persisted-transfer s t (ok _, s') e h = h
Persisted-transfer s t (err _, s') e h = h ∙ ap (λ d. d.destination) e

without_ids-eq :
    (ids : List Text) (es : List HistoryEntry)
    → length es - length (without_ids ids es) ≡ 0
    → without_ids ids es ≡ es
unfolding without_ids
without_ids-eq ids es h =
    let p : HistoryEntry → Bool = λ e. not (any (λ id. same id e.id) ids) in
    retain-eq_of_length p es (omega (arith, length-retain-le p es))

module _ (s : HistoryStore) (a : Attempt) where
  prune-Persisted : (now : ℕ) → InSync s → Persisted s (prune now a s)
  unfolding prune
  prune-Persisted now h =
      elim (Bool-cases (length (prune_entries s.entries now) == length s.entries)) [
        | inl e ↦ rw e (ground (arith, retain-eq_of_length (is_kept now) s.entries))
        | inr n ↦ rw n (persist-Persisted a (record s { entries = prune_entries s.entries now }))
      ]

  pub list_entries-Persisted :
      (to_lowercase : Text → Text) (now : ℕ) (filter : HistoryFilter) (query : Option Text)
      → InSync s
      → Persisted s (list_entries to_lowercase now a filter query s)
  unfolding list_entries
  list_entries-Persisted to_lowercase now filter query h =
      and_return-Persisted _ s (prune now a s) (prune-Persisted now h)

  pub counts-Persisted : (now : ℕ) → InSync s → Persisted s (counts now a s)
  unfolding counts
  counts-Persisted now h = and_return-Persisted _ s (prune now a s) (prune-Persisted now h)

  pub upsert_entry-Persisted :
      (now : ℕ) (millis : ℕ → ℕ) (input : HistoryEntryInput)
      → Persisted s (upsert_entry now millis a input s)
  unfolding upsert_entry store_placed
  upsert_entry-Persisted now millis input = or_return-Persisted _ s _ λ source _.
      or_return-Persisted _ s _ λ translation _.
        or_return-Persisted _ s _
          λ placed e. stored placed.0 placed.1 (file-place now millis input source translation s e)
    where
      stored :
          (entry : HistoryEntry) (t : HistoryStore)
          → t.file ≡ s.file
          → Persisted s (store_placed now a entry t)
      stored entry t e = Persisted-transfer s t _ e (
          and_return-Persisted entry t _
            (persist-Persisted a (record t { entries = prune_entries t.entries now })))

  pub set_favorite-Persisted :
      (updated now : ℕ) (id : Text) (favorite : Bool)
      → InSync s
      → Persisted s (set_favorite updated now a id favorite s)
  unfolding set_favorite
  set_favorite-Persisted updated now id favorite h = elim (Bool-cases (any (has_id id) s.entries)) [
    | inl e ↦ rw e (and_return-Persisted _ s _ (persist-Persisted a _))
    | inr n ↦ rw n h
  ]

  pub delete_entries-Persisted : (ids : List Text) → InSync s → Persisted s (delete_entries a ids s)
  unfolding delete_entries
  delete_entries-Persisted ids h =
      elim (Bool-cases (ltb 0 (length s.entries - length (without_ids ids s.entries)))) [
        | inl e ↦ rw e (and_return-Persisted _ s _ (persist-Persisted a _))
        | inr n ↦ rw n (rw (without_ids-eq ids s.entries (ground arith)) h)
      ]

  pub clear-Persisted : InSync s → Persisted s (clear a s)
  unfolding clear
  clear-Persisted h = elim (Bool-cases (length s.entries == 0)) [
    | inl e ↦ rw e h
    | inr n ↦ rw n (and_return-Persisted _ s _ (persist-Persisted a _))
  ]

read_file-InSync :
    (now : ℕ) (renamed : Bool) (s : HistoryStore)
    → InSync s
    → (read_file now true renamed s.file).0.entries ≡ s.entries
unfolding read_file
read_file-InSync now renamed s h = rw h refl

pub entries-load :
    (now : ℕ) (readable renamed : Bool) (a : Attempt) (d : Directory Contents)
    → (load now readable renamed a d).entries
      ≡ prune_entries (read_file now readable renamed d).0.entries now
unfolding load
entries-load now readable renamed a d =
    elim (Bool-cases (length (prune_entries f.entries now) == length f.entries)) [
      | inl e ↦ rw e refl
      | inr n ↦ rw n (entries-persist a _)
    ]
  where
    f : HistoryFile
    f = (read_file now readable renamed d).0

-- A restart reads back what the last successful call left, less what has expired since.
pub load-InSync :
    (now : ℕ) (renamed : Bool) (a : Attempt) (s : HistoryStore)
    → InSync s
    → (load now true renamed a s.file).entries ≡ prune_entries s.entries now
load-InSync now renamed a s h =
    entries-load now true renamed a s.file
    ∙ ap (λ es. prune_entries es now) (read_file-InSync now renamed s h)
