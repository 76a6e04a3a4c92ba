-- ===== src/History/Placing.antt =====
-- What `place` does: it rewrites the entry that the given id names, or adds a new one.
use linguaray.Base.{
  IsTrimmed, ℕ, ◌≡◌, ◌⊎◌, inl, inr, false, Option, none, some, [], ◌∷◌, ◌++◌, arith, Bool-cases,
  Option-cases, Text, any, update_first, trim, normalize_optional, is_empty, any-of-find,
}
use linguaray.Errors.{ok}
use linguaray.Ids.{id_fuel}
use linguaray.Ids.Search.{next_id-free}
use linguaray.History.{HistoryEntry, HistoryEntryInput, HistoryStore}
use linguaray.History.Methods.{has_id, existing, choose_id, make_entry, place}

module _ (now : ℕ) (millis : ℕ → ℕ) (input : HistoryEntryInput) (source translation : Text)
    (s : HistoryStore) where
  pub record Rewrites (old : HistoryEntry) (entry : HistoryEntry) (t : HistoryStore) : Type 0 where
    pub named : existing input.id s.entries ≡ some old
    pub made : entry ≡ make_entry now input source translation old.id old.created_at old.favorite
    pub stored : t ≡ record s { entries = update_first (has_id old.id) (λ _. entry) s.entries }

  pub record Adds (id : Text) (seq : ℕ) (entry : HistoryEntry) (t : HistoryStore) : Type 0 where
    pub unnamed : existing input.id s.entries ≡ none
    pub chosen : choose_id millis input.id s ≡ some (id, seq)
    pub made : entry ≡ make_entry now input source translation id now false
    pub stored : t ≡ record s { entries = s.entries ++ entry ∷ []; id_seq = seq }

  pub place_cases :
      {entry : HistoryEntry} {t : HistoryStore}
      → place now millis input source translation s ≡ ok (entry, t)
      → ((old : HistoryEntry) × Rewrites old entry t)
        ⊎ ((id : Text) × (seq : ℕ) × Adds id seq entry t)
  unfolding place
  place_cases {entry} {t} h = elim (Option-cases (existing input.id s.entries)) [
    | inl absent ↦ elim (Option-cases (choose_id millis input.id s)) [
      | inl searching ↦ absurd (ground arith)
      | inr ((id, seq), chosen) ↦ inr (
        id,
        seq,
        record { unnamed = absent; chosen = chosen; made = ground arith; stored = ground arith },
      )
    ]
    | inr (old, found) ↦
        inl (old, record { named = found; made = ground arith; stored = ground arith })
  ]

-- A new entry gets an id that no entry has.
pub choose_id-free :
    (millis : ℕ → ℕ) (given : Option Text) (s : HistoryStore) {id : Text} {seq : ℕ}
    → IsTrimmed given
    → existing given s.entries ≡ none
    → choose_id millis given s ≡ some (id, seq)
    → any (has_id id) s.entries ≡ false
unfolding choose_id existing normalize_optional
choose_id-free millis none s t e h =
    next_id-free id_fuel millis (λ id. any (has_id id) s.entries) s.id_seq h
choose_id-free millis (some given) s {id} {seq} t e h = elim (Bool-cases (is_empty (trim given))) [
  | inl blank ↦
      next_id-free id_fuel millis (λ id. any (has_id id) s.entries) s.id_seq
        (rw (blank, choose_id) at h)
  | inr filled ↦
      let chosen : id ≡ given = ground arith in rw chosen (any-of-find (has_id given) s.entries e)
]
