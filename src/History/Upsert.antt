-- ===== src/History/Upsert.antt =====
-- What `upsert_entry` returns and stores.
use linguaray.Base.{
  IsTrimmed, ℕ, ◌≡◌, ◌≢◌, refl, inl, inr, ◌∙◌, ap, Bool, true, ◌&&◌, Option, none, some, List, [],
  arith, ◌<◌, if◌then◌else◌, Bool-cases, Option-cases, Text, codes, any, find, update_first, length,
  is_empty, trim, same_iff, same_refl, normalize_optional, find-some, any-of_find,
}
use linguaray.Base.Keys.{find-append, find-update_first, find-retain}
use linguaray.Errors.{and_return, or_return, ok, Result-cases}
use linguaray.Storage.{Attempt}
use linguaray.Ids.{id_fuel}
use linguaray.Ids.Search.{next_id-finds_free}
use linguaray.History.{
  HistoryEntry, HistoryEntryInput, HistoryStore, persist, prune_entries, required, is_kept,
}
use linguaray.History.Methods.{has_id, existing, choose_id, place, store_placed, upsert_entry}
use linguaray.History.Placing.{place_cases, choose_id-free}
use linguaray.History.Identity.{UniqueIds, entries-store_placed, place-UniqueIds}

-- The write goes through, step by step.
abbrev pub succeeds : Attempt → Bool
succeeds a = a.encoded && a.created && a.staged && a.written && a.flushed && a.committed

required-ok : (field value : Text) → trim value ≢ [] → required field value ≡ ok (trim value)
unfolding required
required-ok field value h = elim (Bool-cases (is_empty (trim value))) [
  | inl e ↦ absurd (h (ground arith))
  | inr n ↦ rw n refl
]

store_placed-ok :
    (now : ℕ) (a : Attempt) (entry : HistoryEntry) (s : HistoryStore)
    → succeeds a ≡ true
    → (store_placed now a entry s).0 ≡ ok entry
unfolding store_placed persist and_return
store_placed-ok now a entry s h = ground arith

any-existing :
    (given : Option Text) (es : List HistoryEntry) {old : HistoryEntry}
    → existing given es ≡ some old
    → any (has_id old.id) es ≡ true
unfolding existing
any-existing none es h = cc
any-existing (some id) es {old} h =
    rw ((same_iff old.id id).0 (find-some (has_id id) es old h)) (any-of_find (has_id id) es old h)

-- What `place` returns is what it stores.
record Placed (now : ℕ) (source translation : Text) (entry : HistoryEntry) (t : HistoryStore)
    : Type 0 where
  source_is : entry.source ≡ source
  translation_is : entry.translation ≡ translation
  updated : entry.updated_at ≡ now
  found : find (has_id entry.id) t.entries ≡ some entry

place-Placed :
    (now : ℕ) (millis : ℕ → ℕ) (input : HistoryEntryInput) (source translation : Text)
    (s : HistoryStore) (entry : HistoryEntry) (t : HistoryStore)
    → IsTrimmed input.id
    → place now millis input source translation s ≡ ok (entry, t)
    → Placed now source translation entry t
place-Placed now millis input source translation s entry t trimmed h =
    elim (place_cases now millis input source translation s h) [
      | inl (old, r) ↦
          let names : entry.id ≡ old.id = rw r.made refl in
          record {
            source_is = rw r.made refl;
            translation_is = rw r.made refl;
            updated = rw r.made refl;
            found = rw r.stored (
                ap (λ id. find (has_id id) (update_first (has_id old.id) (λ _. entry) s.entries))
                  names
                ∙ find-update_first (λ e. e.id) (has_id old.id) entry s.entries
                    (any-existing input.id s.entries r.named) ((same_iff entry.id old.id).1 names));
          }
      | inr (id, seq, r) ↦
          let names : entry.id ≡ id = rw r.made refl in
          let free = choose_id-free millis input.id s trimmed r.unnamed r.chosen in
          record {
            source_is = rw r.made refl;
            translation_is = rw r.made refl;
            updated = rw r.made refl;
            found = rw r.stored (
                find-append (λ e. e.id) (has_id entry.id) s.entries entry (rw names free)
                  (same_refl entry.id));
          }
    ]

kept_entry :
    (now : ℕ) (t : HistoryStore) (entry : HistoryEntry)
    → UniqueIds t
    → find (has_id entry.id) t.entries ≡ some entry
    → find (has_id entry.id) (prune_entries t.entries now)
      ≡ (if is_kept now entry then some entry else none)
unfolding prune_entries
kept_entry now t entry u h = find-retain (λ e. e.id) (is_kept now) entry.id t.entries entry u h

module _ (now : ℕ) (millis : ℕ → ℕ) (a : Attempt) (input : HistoryEntryInput) (s : HistoryStore)
    (source : trim input.source ≢ []) (translation : trim input.translation ≢ []) where
  pub upsert_entry-place :
      {p : HistoryEntry × HistoryStore}
      → place now millis input (trim input.source) (trim input.translation) s ≡ ok p
      → upsert_entry now millis a input s ≡ store_placed now a p.0 p.1
  unfolding upsert_entry or_return
  upsert_entry-place h =
      rw (required-ok (codes "source") input.source source)
        (rw (required-ok (codes "translation") input.translation translation) (rw h refl))

  -- With fewer than 4096 entries an id is found.
  choose_id_total :
      length s.entries < id_fuel → (r : Text × ℕ) × (choose_id millis input.id s ≡ some r)
  unfolding choose_id
  choose_id_total room = elim (Option-cases (normalize_optional input.id)) [
    | inr (id, given) ↦ ((id, s.id_seq), rw (given, choose_id) refl)
    | inl blank ↦
        let (r, e, _) = next_id-finds_free (λ e. e.id) s.entries millis s.id_seq room in
        (r, rw (blank, choose_id) e)
  ]

  place_total :
      length s.entries < id_fuel
      → (p : HistoryEntry × HistoryStore) × (place now millis input
            (trim input.source)
            (trim input.translation)
            s
          ≡ ok p)
  unfolding place
  place_total room =
      let (r, chosen) = choose_id_total room in
      elim (Result-cases (place now millis input (trim input.source) (trim input.translation) s)) [
        | inl done ↦ done
        | inr (e, failed) ↦ absurd (ground (arith, chosen))
      ]

  -- With text in both fields, an id without blanks around it or none, a store of fewer than 4096
  -- entries whose ids are apart, and a write that goes through, the call returns `Ok` with the
  -- trimmed texts, and a store in which the entry's id leads to this very entry, unless it is one
  -- that has expired.
  pub upsert_entry-stores :
      length s.entries < id_fuel
      → succeeds a ≡ true
      → IsTrimmed input.id
      → UniqueIds s
      → (entry : HistoryEntry) × ((upsert_entry now millis a input s).0 ≡ ok entry)
        × (entry.source ≡ trim input.source)
        × (entry.translation ≡ trim input.translation)
        × (entry.updated_at ≡ now)
        × (find (has_id entry.id) (upsert_entry now millis a input s).1.entries
            ≡ (if is_kept now entry then some entry else none))
  upsert_entry-stores room works trimmed u =
      let ((entry, t), placed) = place_total room in
      let facts =
        place-Placed now millis input (trim input.source) (trim input.translation) s entry t trimmed
          placed in
      let unique =
        place-UniqueIds now s millis input (trim input.source) (trim input.translation) entry t
          trimmed u placed in
      let stored = upsert_entry-place placed in
      (
        entry,
        ap (λ r. r.0) stored ∙ store_placed-ok now a entry t works,
        facts.source_is,
        facts.translation_is,
        facts.updated,
        ap (λ r. find (has_id entry.id) r.1.entries) stored
            ∙ ap (find (has_id entry.id)) (entries-store_placed now a entry t)
            ∙ kept_entry now t entry unique facts.found,
      )
