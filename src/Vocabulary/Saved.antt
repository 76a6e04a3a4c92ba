-- ===== src/Vocabulary/Saved.antt =====
-- The ids of the vocabulary, and what `upsert_entry`, `set_note` and `set_favorite` store.
use linguaray.Base.{
  ℕ, ◌≡◌, ◌≢◌, refl, ap, ◌∙◌, inl, inr, ◌<◌, Bool, true, false, ◌&&◌, Option, none, some, List, [],
  ◌∷◌, ◌++◌, arith, Bool-cases, Option-cases, Text, any, find, update_first, length, trim, is_empty,
  same_iff, same_refl, find-some, any-of-find, any-of_find, IsTrimmed, normalize_optional, codes,
}
use linguaray.Base.Keys.{Unique, Unique-update_first, Unique-append, find-append, find-update_first}
use linguaray.Errors.{ok, Result-cases, and_return, or_return, and_return-1}
use linguaray.Storage.{Attempt}
use linguaray.Ids.{id_fuel}
use linguaray.Ids.Search.{next_id-free, next_id-finds_free}
use linguaray.Vocabulary.{
  VocabularyEntry, VocabularyEntryInput, VocabularyStore, required, persist, has_id, existing,
  choose_id, make_entry, place, upsert_entry,
}
use linguaray.Vocabulary.Persisted.{entries-persist}

-- No two entries of the book share an id.
abbrev pub UniqueIds : VocabularyStore → Type 0
UniqueIds s = Unique (λ e. e.id) s.entries

-- A new entry gets an id that no entry has.
choose_id-free :
    (millis : ℕ → ℕ) (given : Option Text) (s : VocabularyStore) {id : Text} {seq : ℕ}
    → IsTrimmed given
    → existing given s.entries ≡ none
    → choose_id millis given s ≡ some (id, seq)
    → any (has_id id) s.entries ≡ false
unfolding choose_id existing normalize_optional
choose_id-free millis none s t e h =
    next_id-free id_fuel millis (λ id. any (has_id id) s.entries) s.id_seq h
choose_id-free millis (some given) s {id} {seq} t e h = elim (Bool-cases (is_empty (trim given))) [
  | inl blank ↦
      next_id-free id_fuel millis (λ id. any (has_id id) s.entries) s.id_seq
        (rw (blank, choose_id) at h)
  | inr filled ↦
      let chosen : id ≡ given = ground arith in rw chosen (any-of-find (has_id given) s.entries e)
]

any-existing :
    (given : Option Text) (es : List VocabularyEntry) {old : VocabularyEntry}
    → existing given es ≡ some old
    → any (has_id old.id) es ≡ true
unfolding existing
any-existing none es h = cc
any-existing (some id) es {old} h =
    rw ((same_iff old.id id).0 (find-some (has_id id) es old h)) (any-of_find (has_id id) es old h)

-- What `place` returns is in the store that it returns, whose ids are still apart.
record Placed (now : ℕ) (word translation : Text) (entry : VocabularyEntry) (t : VocabularyStore)
    : Type 0 where
  word_is : entry.word ≡ word
  translation_is : entry.translation ≡ translation
  updated : entry.updated_at ≡ now
  found : find (has_id entry.id) t.entries ≡ some entry
  unique : UniqueIds t

module _ (now : ℕ) (millis : ℕ → ℕ) (input : VocabularyEntryInput) (word translation : Text)
    (s : VocabularyStore) (trimmed : IsTrimmed input.id) (u : UniqueIds s) where
  rewritten-Placed :
      (old entry : VocabularyEntry)
      → existing input.id s.entries ≡ some old
      → entry ≡ make_entry now input word translation old.id old.created_at old.favorite
      → Placed now word translation entry
          (record s { entries = update_first (has_id old.id) (λ _. entry) s.entries })
  rewritten-Placed old entry named made =
      let names : entry.id ≡ old.id = rw made refl in
      record {
        word_is = rw made refl;
        translation_is = rw made refl;
        updated = rw made refl;
        found =
            ap (λ id. find (has_id id) (update_first (has_id old.id) (λ _. entry) s.entries)) names
            ∙ find-update_first (λ e. e.id) (has_id old.id) entry s.entries
                (any-existing input.id s.entries named) ((same_iff entry.id old.id).1 names);
        unique =
            Unique-update_first (λ e. e.id) (has_id old.id) (λ _. entry) s.entries
              (λ e m. ground (arith, same_iff e.id old.id)) u;
      }

  added-Placed :
      (id : Text) (seq : ℕ) (entry : VocabularyEntry)
      → existing input.id s.entries ≡ none
      → choose_id millis input.id s ≡ some (id, seq)
      → entry ≡ make_entry now input word translation id now false
      → Placed now word translation entry
          (record s { entries = s.entries ++ entry ∷ []; id_seq = seq })
  added-Placed id seq entry unnamed chosen made =
      let names : entry.id ≡ id = rw made refl in
      let free = choose_id-free millis input.id s trimmed unnamed chosen in
      record {
        word_is = rw made refl;
        translation_is = rw made refl;
        updated = rw made refl;
        found =
            find-append (λ e. e.id) (has_id entry.id) s.entries entry (rw names free)
              (same_refl entry.id);
        unique = Unique-append (λ e. e.id) s.entries entry u (rw names free);
      }

  place-Placed :
      {entry : VocabularyEntry} {t : VocabularyStore}
      → place now millis input word translation s ≡ ok (entry, t)
      → Placed now word translation entry t
  unfolding place
  place-Placed {entry} {t} h = elim (Option-cases (existing input.id s.entries)) [
    | inl absent ↦ elim (Option-cases (choose_id millis input.id s)) [
      | inl searching ↦ absurd (ground arith)
      | inr ((id, seq), chosen) ↦
          let stored : t ≡ record s { entries = s.entries ++ entry ∷ []; id_seq = seq } =
            ground arith in
          rw stored (added-Placed id seq entry absent chosen (ground arith))
    ]
    | inr (old, named) ↦
        let stored : t
            ≡ record s { entries = update_first (has_id old.id) (λ _. entry) s.entries } =
          ground arith in
        rw stored (rewritten-Placed old entry named (ground arith))
  ]

  -- With fewer than 4096 entries an id is found.
  place_total :
      length s.entries < id_fuel
      → (p : VocabularyEntry × VocabularyStore) × (place now millis input word translation s ≡ ok p)
  unfolding place
  place_total room =
      let (r, chosen) = choose_id_total in
      elim (Result-cases (place now millis input word translation s)) [
        | inl done ↦ done
        | inr (e, failed) ↦ absurd (ground (arith, chosen))
      ]
    where
      choose_id_total : (r : Text × ℕ) × (choose_id millis input.id s ≡ some r)
      choose_id_total = elim (Option-cases (normalize_optional input.id)) [
        | inr (id, given) ↦ ((id, s.id_seq), rw (given, choose_id) refl)
        | inl blank ↦
            let (r, e, _) = next_id-finds_free (λ e. e.id) s.entries millis s.id_seq room in
            (r, rw (blank, choose_id) e)
      ]

-- The write goes through, step by step.
abbrev pub succeeds : Attempt → Bool
succeeds a = a.encoded && a.created && a.staged && a.written && a.flushed && a.committed

required-ok : (field value : Text) → trim value ≢ [] → required field value ≡ ok (trim value)
unfolding required
required-ok field value h = elim (Bool-cases (is_empty (trim value))) [
  | inl e ↦ absurd (h (ground arith))
  | inr n ↦ rw n refl
]

and_return-persist :
    (a : Attempt) (entry : VocabularyEntry) (s : VocabularyStore)
    → succeeds a ≡ true
    → (and_return entry (persist a s)).0 ≡ ok entry
unfolding and_return persist
and_return-persist a entry s h = ground arith

-- With text in both fields, fewer than 4096 entries and a write that goes through, `upsert_entry`
-- returns `Ok` with the trimmed texts, its id leads to this very entry in the book that is left,
-- and the ids of that book are apart.
pub upsert_entry-saves :
    (now : ℕ) (millis : ℕ → ℕ) (a : Attempt) (input : VocabularyEntryInput) (s : VocabularyStore)
    → trim input.word ≢ []
    → trim input.translation ≢ []
    → length s.entries < id_fuel
    → succeeds a ≡ true
    → IsTrimmed input.id
    → UniqueIds s
    → (entry : VocabularyEntry) × ((upsert_entry now millis a input s).0 ≡ ok entry)
      × (entry.word ≡ trim input.word)
      × (entry.translation ≡ trim input.translation)
      × (entry.updated_at ≡ now)
      × (find (has_id entry.id) (upsert_entry now millis a input s).1.entries ≡ some entry)
      × UniqueIds (upsert_entry now millis a input s).1
unfolding upsert_entry or_return
upsert_entry-saves now millis a input s word translation room works trimmed u =
    let ((entry, t), placed) =
      place_total now millis input (trim input.word) (trim input.translation) s trimmed u room in
    let facts =
      place-Placed now millis input (trim input.word) (trim input.translation) s trimmed u placed in
    let runs : upsert_entry now millis a input s ≡ and_return entry (persist a t) =
      rw (required-ok (codes "word") input.word word)
        (rw (required-ok (codes "translation") input.translation translation) (rw placed refl)) in
    let left : (upsert_entry now millis a input s).1.entries ≡ t.entries =
      ap (λ r. r.1.entries) runs
      ∙ ap (λ q. q.entries) (and_return-1 entry (persist a t))
      ∙ entries-persist a t in
    (
      entry,
      ap (λ r. r.0) runs ∙ and_return-persist a entry t works,
      facts.word_is,
      facts.translation_is,
      facts.updated,
      rw left facts.found,
      rw left facts.unique,
    )
