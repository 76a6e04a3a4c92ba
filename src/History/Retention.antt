-- ===== src/History/Retention.antt =====
-- Expiry after 90 days, and the listing.
use mathlib.Core.List.{Perm}
use mathlib.Core.Path.{subst}
use linguaray.Base.{
  none, some, trim, is_empty, contains, Bool, ◌≤◌, [], ◌∷◌, All, ℕ, ◌≡◌, refl, ap, ◌∙◌, inl, inr,
  Bool, true, ◌||◌, Option, List, arith, ◌==◌, Bool-cases, Text, all, retain, length, all-retain,
  all-retain_of_all, retain-retain_of_imp, le_text_total, le_text_trans,
}
use linguaray.Base.Sort.{sort_by, IsSorted, sort_by-IsSorted, sort_by-perm, all-sort_by}
use linguaray.Errors.{and_return-1, and_return-ok, ok}
use linguaray.Storage.{Attempt, Directory}
use linguaray.History.{
  Contents, all_entries, favorites, edited, HistoryFilter, HistoryEntry, HistoryStore, prune,
  prune_entries, is_kept, load, read_file,
}
use linguaray.History.Methods.{newer_first, selected, passes, mentions, needle_of, list_entries}
use linguaray.History.Persisted.{entries-persist, entries-load}

-- What a filter keeps
abbrev pub chosen_by : HistoryFilter → HistoryEntry → Bool
chosen_by all_entries e = true
chosen_by favorites e = e.favorite
chosen_by edited e = e.edited

-- The query, trimmed, is found in one of six texts, all of them in lower case. No query and a blank
-- one are found everywhere.
abbrev pub sought : Option Text → Text
sought none = []
sought (some query) = trim query

abbrev pub is_found_in : (Text → Text) → Option Text → HistoryEntry → Bool
is_found_in to_lowercase query e =
    is_empty (to_lowercase (sought query))
    || contains (to_lowercase e.source) (to_lowercase (sought query))
    || contains (to_lowercase e.translation) (to_lowercase (sought query))
    || contains (to_lowercase e.service_name) (to_lowercase (sought query))
    || contains (to_lowercase e.service_id) (to_lowercase (sought query))
    || contains (to_lowercase e.source_language) (to_lowercase (sought query))
    || contains (to_lowercase e.target_language) (to_lowercase (sought query))

-- `f` is no newer than `e`, and was not changed later if it is as old.
abbrev pub NoNewer : HistoryEntry → HistoryEntry → Type 0
NoNewer e f =
    (f.created_at ≤ e.created_at) × (f.created_at ≡ e.created_at → f.updated_at ≤ e.updated_at)

-- No entry is newer than one that stands before it.
abbrev pub NewestFirst : List HistoryEntry → Type 0
NewestFirst [] = Unit
NewestFirst (e ∷ es) = All (NoNewer e) es × NewestFirst es

all-NoNewer :
    (e : HistoryEntry) (es : List HistoryEntry) → all (newer_first e) es ≡ true → All (NoNewer e) es
unfolding newer_first
all-NoNewer e [] h = tt
all-NoNewer e (f ∷ es) h = ((ground arith, λ same. ground arith), all-NoNewer e es (ground arith))

IsSorted-NewestFirst : (es : List HistoryEntry) → IsSorted newer_first es → NewestFirst es
IsSorted-NewestFirst [] s = tt
IsSorted-NewestFirst (e ∷ es) (h, s) = (all-NoNewer e es h, IsSorted-NewestFirst es s)

newer_first_total : (a b : HistoryEntry) → (newer_first a b || newer_first b a) ≡ true
unfolding newer_first
newer_first_total a b = ground (arith, le_text_total a.id b.id)

newer_first_trans :
    (a b c : HistoryEntry)
    → newer_first a b ≡ true
    → newer_first b c ≡ true
    → newer_first a c ≡ true
unfolding newer_first
newer_first_trans a b c h k = ground (arith, le_text_trans c.id b.id a.id)

-- Pruning keeps what is a favorite or young enough, all of it, and nothing else. Favorites are
-- never touched.
pub prune_entries_lem :
    (es : List HistoryEntry) (now : ℕ)
    → (all (is_kept now) (prune_entries es now) ≡ true)
      × (retain (λ e. e.favorite) (prune_entries es now) ≡ retain (λ e. e.favorite) es)
unfolding prune_entries
prune_entries_lem es now = (
  all-retain (is_kept now) es,
  retain-retain_of_imp (is_kept now) (λ e. e.favorite) es (λ e f. ground arith),
)

entries-prune :
    (now : ℕ) (a : Attempt) (s : HistoryStore)
    → (prune now a s).1.entries ≡ prune_entries s.entries now
unfolding prune
entries-prune now a s =
    elim (Bool-cases (length (prune_entries s.entries now) == length s.entries)) [
      | inl e ↦ rw e refl
      | inr n ↦ rw n (entries-persist a _)
    ]

module _ (to_lowercase : Text → Text) (now : ℕ) (a : Attempt) (filter : HistoryFilter) where
  selected-kept :
      (query : Option Text) (es : List HistoryEntry)
      → all (is_kept now) es ≡ true
      → all (is_kept now) (selected to_lowercase filter query es) ≡ true
  unfolding selected
  selected-kept query es h =
      all-retain_of_all _ (is_kept now) (retain (passes filter) es)
        (all-retain_of_all (passes filter) (is_kept now) es h)

  trim_nothing : trim [] ≡ []
  unfolding trim
  trim_nothing = refl

  mentions-is_found_in :
      (query : Option Text) (e : HistoryEntry)
      → mentions to_lowercase (needle_of to_lowercase query) e ≡ is_found_in to_lowercase query e
  unfolding mentions needle_of
  mentions-is_found_in none e = rw trim_nothing (ground arith)
  mentions-is_found_in (some query) e = ground arith

  passes-chosen_by : (f : HistoryFilter) (e : HistoryEntry) → passes f e ≡ chosen_by f e
  unfolding passes
  passes-chosen_by all_entries e = refl
  passes-chosen_by favorites e = refl
  passes-chosen_by edited e = refl

  retain_same :
      (p q : HistoryEntry → Bool) (es : List HistoryEntry)
      → ((e : HistoryEntry) → p e ≡ q e)
      → retain p es ≡ retain q es
  retain_same p q [] h = refl
  retain_same p q (e ∷ es) h = ground (arith, h e, retain_same p q es h)

  selected-chosen :
      (query : Option Text) (es : List HistoryEntry)
      → selected to_lowercase filter query es
        ≡ retain (is_found_in to_lowercase query) (retain (chosen_by filter) es)
  unfolding selected
  selected-chosen query es =
      retain_same (mentions to_lowercase (needle_of to_lowercase query))
        (is_found_in to_lowercase query) (retain (passes filter) es) (mentions-is_found_in query)
      ∙ ap (retain (is_found_in to_lowercase query))
          (retain_same (passes filter) (chosen_by filter) es (passes-chosen_by filter))

  -- A listing has, each once, the entries that have not expired, that the filter keeps (all, the
  -- favorites or the edited ones) and in one of whose six texts the query is found; those created last come first, and
  -- among those of one time the ones changed last; the store has dropped what has expired.
  pub list_entries_lem :
      (query : Option Text) (s : HistoryStore) (listed : List HistoryEntry)
      → (list_entries to_lowercase now a filter query s).0 ≡ ok listed
      → Perm listed (
          retain
            (is_found_in to_lowercase query)
            (retain (chosen_by filter) (prune_entries s.entries now)))
        × NewestFirst listed
        × (all (is_kept now) listed ≡ true)
        × ((list_entries to_lowercase now a filter query s).1.entries ≡ prune_entries s.entries now)
  unfolding list_entries
  list_entries_lem query s listed h =
      let found = selected to_lowercase filter query (prune now a s).1.entries in
      let is : sort_by newer_first found ≡ listed =
        and_return-ok (sort_by newer_first found) listed (prune now a s) h in
      let pruned = entries-prune now a s in
      (
        subst (Perm listed) (selected-chosen query (prune_entries s.entries now)) (
            subst (λ l. Perm l (selected to_lowercase filter query (prune_entries s.entries now)))
              is
              (subst
                (λ es. Perm (sort_by newer_first found) (selected to_lowercase filter query es))
                pruned (sort_by-perm newer_first found))),
        IsSorted-NewestFirst listed (
            subst (IsSorted newer_first) is
              (sort_by-IsSorted newer_first newer_first_total newer_first_trans found)),
        subst (λ l. all (is_kept now) l ≡ true) is
            (all-sort_by newer_first (is_kept now) found
              ∙ selected-kept query (prune now a s).1.entries
                  (rw pruned (prune_entries_lem s.entries now).0)),
        ap (λ t. t.entries) (and_return-1 _ (prune now a s)) ∙ pruned,
      )

-- After a restart no entry is kept that has expired, and every favorite of the file is there,
-- whether or not the smaller file can be written.
pub load_lem :
    (now : ℕ) (readable renamed : Bool) (a : Attempt) (d : Directory Contents)
    → (all (is_kept now) (load now readable renamed a d).entries ≡ true)
      × (retain (λ e. e.favorite) (load now readable renamed a d).entries
          ≡ retain (λ e. e.favorite) (read_file now readable renamed d).0.entries)
load_lem now readable renamed a d =
    rw entries-load (prune_entries_lem (read_file now readable renamed d).0.entries now)
