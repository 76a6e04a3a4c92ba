-- ===== src/Vocabulary/Persisted.antt =====
-- What the vocabulary file holds after each method, and what a restart makes of it.
use linguaray.Base.{
  ℕ, ◌≡◌, refl, inl, inr, Bool, true, Option, some, List, arith, Bool-cases, Text, length, ap,
  retain-eq_of_length, length-retain-le, any, ◌∙◌, ltb, ◌-◌, not, same,
}
use linguaray.Errors.{Result, ok, err, and_return, or_return}
use linguaray.Storage.{Attempt}
use linguaray.Vocabulary.{
  VocabularyEntry, VocabularyEntryInput, VocabularyStore, document, vocabulary_version, persist,
  load, place, upsert_entry, change, set_favorite, set_note, without_ids, delete_entries, has_id,
}

-- The file holds what the store holds.
abbrev pub InSync : VocabularyStore → Type 0
InSync s =
    s.file.destination
    ≡ some (document (record { version = vocabulary_version; entries = s.entries }))

-- After `Ok` the file holds what the store holds; after an error it is the file of before.
abbrev pub Persisted {ℓ} : {A : Type ℓ} → VocabularyStore → Result A × VocabularyStore → Type 0
Persisted s (ok _, s') = InSync s'
Persisted s (err _, s') = s'.file.destination ≡ s.file.destination

pub entries-persist : (a : Attempt) (s : VocabularyStore) → (persist a s).1.entries ≡ s.entries
unfolding persist
entries-persist a s = ground arith

persist-Persisted : (a : Attempt) (s : VocabularyStore) → Persisted s (persist a s)
unfolding persist
persist-Persisted a s = ground arith

and_return-Persisted {ℓ} :
    {A : Type ℓ} (v : A) (s : VocabularyStore) (p : Result (Unit {0}) × VocabularyStore)
    → Persisted s p
    → Persisted s (and_return v p)
unfolding and_return
and_return-Persisted v s (ok _, s') h = h
and_return-Persisted v s (err _, s') h = h

or_return-Persisted {ℓ κ} :
    {A : Type ℓ} {B : Type κ} (r : Result A) (s : VocabularyStore)
    (k : A → Result B × VocabularyStore)
    → ((v : A) → r ≡ ok v → Persisted s (k v))
    → Persisted s (or_return r s k)
unfolding or_return
or_return-Persisted (ok v) s k h = h v refl
or_return-Persisted (err e) s k h = refl

Persisted-transfer {ℓ} :
    {A : Type ℓ} (s t : VocabularyStore) (p : Result A × VocabularyStore)
    → t.file ≡ s.file
    → Persisted t p
    → Persisted s p
Persisted-transfer s t (ok _, s') e h = h
Persisted-transfer s t (err _, s') e h = h ∙ ap (λ d. d.destination) e

file-place :
    (now : ℕ) (millis : ℕ → ℕ) (input : VocabularyEntryInput) (word translation : Text)
    (s : VocabularyStore) {p : VocabularyEntry × VocabularyStore}
    → place now millis input word translation s ≡ ok p
    → p.1.file ≡ s.file
unfolding place
file-place now millis input word translation s h = ground arith

without_ids-eq :
    (ids : List Text) (es : List VocabularyEntry)
    → length es - length (without_ids ids es) ≡ 0
    → without_ids ids es ≡ es
unfolding without_ids
without_ids-eq ids es h =
    let p : VocabularyEntry → Bool = λ e. not (any (λ id. same id e.id) ids) in
    retain-eq_of_length p es (omega (arith, length-retain-le p es))

module _ (s : VocabularyStore) (a : Attempt) where
  -- `upsert_entry` returns `Ok` with a file that holds the store, or an error with the old file.
  pub upsert_entry-Saved :
      (now : ℕ) (millis : ℕ → ℕ) (input : VocabularyEntryInput)
      → Persisted s (upsert_entry now millis a input s)
  unfolding upsert_entry
  upsert_entry-Saved now millis input = or_return-Persisted _ s _ λ word _.
      or_return-Persisted _ s _ λ translation _. or_return-Persisted _ s _ λ placed e.
        Persisted-transfer s placed.1 _ (file-place now millis input word translation s e)
          (and_return-Persisted placed.0 placed.1 _ (persist-Persisted a placed.1))

  change-Persisted :
      (f : VocabularyEntry → VocabularyEntry) (id : Text) → InSync s → Persisted s (change f a id s)
  unfolding change
  change-Persisted f id h = elim (Bool-cases (any (has_id id) s.entries)) [
    | inl e ↦ rw e (and_return-Persisted _ s _ (persist-Persisted a _))
    | inr n ↦ rw n h
  ]

  -- So do `set_favorite` and `set_note` in a store in step with its file.
  pub set_favorite-Saved :
      (now : ℕ) (id : Text) (favorite : Bool)
      → InSync s
      → Persisted s (set_favorite now a id favorite s)
  unfolding set_favorite
  set_favorite-Saved now id favorite h = change-Persisted _ id h

  pub set_note-Saved :
      (now : ℕ) (id : Text) (text : Option Text) → InSync s → Persisted s (set_note now a id text s)
  unfolding set_note
  set_note-Saved now id text h = change-Persisted _ id h

  pub delete_entries-Saved : (ids : List Text) → InSync s → Persisted s (delete_entries a ids s)
  unfolding delete_entries
  delete_entries-Saved ids h =
      elim (Bool-cases (ltb 0 (length s.entries - length (without_ids ids s.entries)))) [
        | inl e ↦ rw e (and_return-Persisted _ s _ (persist-Persisted a _))
        | inr n ↦ rw n (rw (without_ids-eq ids s.entries (ground arith)) h)
      ]

-- A restart of a store in step with its file reads back every entry, whatever its age, and leaves
-- the file in step.
pub load-whole :
    (now : ℕ) (renamed : Bool) (s : VocabularyStore)
    → InSync s
    → ((load now true renamed s.file).entries ≡ s.entries) × InSync (load now true renamed s.file)
unfolding load
load-whole now renamed s h = (rw (h, load) refl, rw (h, load) h)
