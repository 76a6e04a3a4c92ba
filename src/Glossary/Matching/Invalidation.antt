-- ===== src/Glossary/Matching/Invalidation.antt =====
-- The methods of the store leave no stale matcher: what they do to the generation.
use linguaray.Base.{
  is_empty, trim, ℕ, ◌+◌, ◌≤◌, ◌<◌, ◌^◌, ◌≡◌, ◌⊎◌, refl, ap, ◌∙◌, inl, inr, Bool, true, false, not,
  ◌==◌, if◌then◌else◌, retain, same, List, [], ◌∷◌, arith, Bool-cases, Text, codes, ltb, ◌||◌,
  length,
}
use linguaray.Errors.{Error, Result, ok, err, Result-cases}
use linguaray.Storage.{Attempt}
use linguaray.Glossary.{
  BookFile, GlossaryBookInput, GlossaryEntryInput, GlossaryImportReport, GlossaryStore, commit,
  to_book, write_book, and_then, validate_book_id, require_book, require_non_empty,
}
use linguaray.Glossary.Books.{
  placed_book, upsert_book, delete_book, apply_entry, upsert_entry, import_one, import_loop,
  import_entries, empty_report, delete_entry, bump_u32,
}

-- The books are the old ones in the old generation, or the generation is a later one.
abbrev pub Fresher : GlossaryStore → GlossaryStore → Type 0
Fresher s t =
    ((t.generation ≡ s.generation) × (t.books ≡ s.books)) ⊎ (t.generation ≡ s.generation + 1)

-- The counter of generations has room.
abbrev pub HasRoom : GlossaryStore → Type 0
HasRoom s = s.generation + 1 < 2 ^ 64

commit-generation :
    (a : Attempt) (id : Text) (s : GlossaryStore)
    → HasRoom s
    → (commit a id s).1.generation ≡ s.generation + 1
unfolding commit write_book
commit-generation a id s room = ground arith

generation-apply_entry :
    (now : ℕ) (millis : ℕ → ℕ) (id : Text) (input : GlossaryEntryInput) (s : GlossaryStore)
    → (apply_entry now millis id input s).1.generation ≡ s.generation
unfolding apply_entry and_then
generation-apply_entry now millis id input s = ground arith

apply_entry-err :
    (now : ℕ) (millis : ℕ → ℕ) (id : Text) (input : GlossaryEntryInput) (s : GlossaryStore)
    {e : Error}
    → (apply_entry now millis id input s).0 ≡ err e
    → (apply_entry now millis id input s).1 ≡ s
unfolding apply_entry and_then
apply_entry-err now millis id input s h = ground arith

pub delete_book-Fresher :
    (removed : Bool) (id : Text) (s : GlossaryStore)
    → HasRoom s
    → Fresher s (delete_book removed id s).1
unfolding delete_book
delete_book-Fresher removed id s room = ground arith

and_then-1 {ℓ κ} :
    {A : Type ℓ} {B : Type κ} (v : B) (p : Result A × GlossaryStore)
    → (and_then p (λ _ s'. (ok v, s'))).1 ≡ p.1
unfolding and_then
and_then-1 v (ok u, s) = refl
and_then-1 v (err e, s) = refl

-- A commit of a changed store is fresher than the store.
committed {ℓ} :
    {A : Type ℓ} (v : A) (a : Attempt) (id : Text) (s t : GlossaryStore)
    → HasRoom s
    → t.generation ≡ s.generation
    → Fresher s (and_then (commit a id t) (λ _ s'. (ok v, s'))).1
unfolding and_then
committed v a id s t room same_generation = inr (
    ap (λ u. u.generation) (and_then-1 v (commit a id t))
    ∙ commit-generation a id t (omega arith)
    ∙ ap (λ n. n + 1) same_generation)

-- A part that only reads the store, then one that leaves a fresher store.
and_then-Fresher {ℓ κ} :
    {A : Type ℓ} {B : Type κ} (r : Result A) (s : GlossaryStore)
    (k : A → GlossaryStore → Result B × GlossaryStore)
    → ((v : A) → Fresher s (k v s).1)
    → Fresher s (and_then (r, s) k).1
unfolding and_then
and_then-Fresher (ok v) s k h = h v
and_then-Fresher (err e) s k h = inl (refl, refl)

unchanged_or {ℓ} :
    {A : Type ℓ} (c : Bool) (r : Result A) (s : GlossaryStore) (q : Result A × GlossaryStore)
    → Fresher s q.1
    → Fresher s (if c then (r, s) else q).1
unchanged_or true r s q h = inl (refl, refl)
unchanged_or false r s q h = h

pub upsert_book-Fresher :
    (now : ℕ) (millis : ℕ → ℕ) (a : Attempt) (input : GlossaryBookInput) (s : GlossaryStore)
    → HasRoom s
    → Fresher s (upsert_book now millis a input s).1
unfolding upsert_book
upsert_book-Fresher now millis a input s room =
    and_then-Fresher (require_non_empty (codes "name") input.name) s _ λ name.
      and_then-Fresher (placed_book now millis name input s) s _
        λ placed. committed (to_book placed.0) a placed.0.id s _ room refl

-- A part that changes the books only if it returns `Ok`, then a commit.
applied-Fresher {ℓ} :
    {A : Type ℓ} (p : Result A × GlossaryStore) (a : Attempt) (id : Text) (s : GlossaryStore)
    → HasRoom s
    → p.1.generation ≡ s.generation
    → ((e : Error) → p.0 ≡ err e → p.1 ≡ s)
    → Fresher s (and_then p (λ v s'. and_then (commit a id s') (λ _ s''. (ok v, s'')))).1
unfolding and_then
applied-Fresher (ok v, t) a id s room same_generation h = committed v a id s t room same_generation
applied-Fresher (err e, t) a id s room same_generation h =
    inl (same_generation, ap (λ u. u.books) (h e refl))

pub upsert_entry-Fresher :
    (now : ℕ) (millis : ℕ → ℕ) (a : Attempt) (id : Text) (input : GlossaryEntryInput)
    (s : GlossaryStore)
    → HasRoom s
    → Fresher s (upsert_entry now millis a id input s).1
unfolding upsert_entry
upsert_entry-Fresher now millis a id input s room = and_then-Fresher (validate_book_id id) s _ λ _.
    applied-Fresher (apply_entry now millis id input s) a id s room
      (generation-apply_entry now millis id input s)
      (λ e h. apply_entry-err now millis id input s h)

pub delete_entry-Fresher :
    (now : ℕ) (a : Attempt) (id entry : Text) (s : GlossaryStore)
    → HasRoom s
    → Fresher s (delete_entry now a id entry s).1
unfolding delete_entry
delete_entry-Fresher now a id entry s room = and_then-Fresher (validate_book_id id) s _ λ _.
    and_then-Fresher (require_book id s) s _ λ b.
      unchanged_or (length (retain (λ e. not (same e.id entry)) b.entries) == length b.entries)
        (ok false) s _ (committed true a id s _ room refl)

-- A round of an import counts in one of three ways, and only what is counted as written changes
-- the books.
record Round (before after : GlossaryImportReport) (s t : GlossaryStore) : Type 0 where
  generation_kept : t.generation ≡ s.generation
  grows : before.inserted + before.updated ≤ after.inserted + after.updated
  at_most : after.inserted + after.updated ≤ before.inserted + before.updated + 1
  unless_written :
      (t.books ≡ s.books) ⊎ (before.inserted + before.updated < after.inserted + after.updated)

-- How a round counts an entry that was written.
abbrev count : Bool → GlossaryImportReport → GlossaryStore → GlossaryImportReport × GlossaryStore
count existed report t =
    if existed
    then (record report { updated = bump_u32 report.updated }, t)
    else (record report { inserted = bump_u32 report.inserted }, t)

counted :
    (report : GlossaryImportReport) (existed : Bool) (s t : GlossaryStore)
    → t.generation ≡ s.generation
    → report.inserted + report.updated + 1 < 2 ^ 32
    → Round report (count existed report t).0 s (count existed report t).1
counted report true s t kept room = record {
  generation_kept = kept;
  grows = omega arith;
  at_most = omega arith;
  unless_written = inr (omega arith);
}
counted report false s t kept room = record {
  generation_kept = kept;
  grows = omega arith;
  at_most = omega arith;
  unless_written = inr (omega arith);
}

-- The same of a whole import.
record Rounds (before after : GlossaryImportReport) (s t : GlossaryStore) : Type 0 where
  generation_kept : t.generation ≡ s.generation
  grows : before.inserted + before.updated ≤ after.inserted + after.updated
  unless_written :
      (t.books ≡ s.books) ⊎ (before.inserted + before.updated < after.inserted + after.updated)

import_one-Round :
    (now : ℕ) (millis : ℕ → ℕ) (id : Text) (input : GlossaryEntryInput)
    (report : GlossaryImportReport) (s : GlossaryStore)
    → report.inserted + report.updated + 1 < 2 ^ 32
    → Round report
        (import_one now millis id input report s).0
        s
        (import_one now millis id input report s).1
unfolding import_one
import_one-Round now millis id input report s room =
    let kept = generation-apply_entry now millis id input s in
    let rejected = λ (e : Error). apply_entry-err now millis id input s {e = e} in
    elim (Bool-cases (is_empty (trim input.term) || is_empty (trim input.translation))) [
      | inl blank ↦
          rw (blank, import_one)
            (record {
              generation_kept = refl;
              grows = omega arith;
              at_most = omega arith;
              unless_written = inl refl;
            })
      | inr filled ↦ elim (Result-cases (apply_entry now millis id input s).0) [
        | inl (entry, applied) ↦
            rw (filled, import_one) (rw (applied, import_one) (counted report _ s _ kept room))
        | inr (e, failed) ↦
            let same_store = rejected e failed in
            rw (filled, import_one)
              (rw (failed, import_one)
                (record {
                  generation_kept = kept;
                  grows = omega arith;
                  at_most = omega arith;
                  unless_written = inl (ap (λ t. t.books) same_store);
                }))
      ]
    ]

both :
    {books books' books'' : List BookFile} {i j k : ℕ}
    → (books' ≡ books) ⊎ (i < j)
    → (books'' ≡ books') ⊎ (j < k)
    → i ≤ j
    → j ≤ k
    → (books'' ≡ books) ⊎ (i < k)
both (inl e) (inl e') h h' = inl (e' ∙ e)
both (inl e) (inr l) h h' = inr (omega arith)
both (inr l) r h h' = inr (omega arith)

import_loop-Round :
    (now : ℕ) (millis : ℕ → ℕ → ℕ) (id : Text) (inputs : List GlossaryEntryInput)
    (report : GlossaryImportReport) (s : GlossaryStore)
    → report.inserted + report.updated + length inputs < 2 ^ 32
    → Rounds report
        (import_loop now millis id inputs report s).0
        s
        (import_loop now millis id inputs report s).1
unfolding import_loop
import_loop-Round now millis id [] report s room = record {
  generation_kept = refl;
  grows = omega arith;
  unless_written = inl refl;
}
import_loop-Round now millis id (input ∷ rest) report s room =
    let one = import_one now (millis (length rest)) id input report s in
    let first : Round report one.0 s one.1 =
      import_one-Round now (millis (length rest)) id input report s (omega arith) in
    let others = import_loop-Round now millis id rest one.0 one.1 (omega (arith, first.at_most)) in
    record {
      generation_kept = others.generation_kept ∙ first.generation_kept;
      grows = omega (arith, first.grows, others.grows);
      unless_written = both first.unless_written others.unless_written first.grows others.grows;
    }

unwritten :
    {books books' : List BookFile} (report : GlossaryImportReport)
    → (books' ≡ books) ⊎ (0 < report.inserted + report.updated)
    → (ltb 0 report.inserted || ltb 0 report.updated) ≡ false
    → books' ≡ books
unwritten report (inl e) h = e
unwritten report (inr l) h = absurd (ground arith)

pub import_entries-Fresher :
    (now : ℕ) (millis : ℕ → ℕ → ℕ) (a : Attempt) (id : Text) (inputs : List GlossaryEntryInput)
    (s : GlossaryStore)
    → HasRoom s
    → length inputs < 2 ^ 32
    → Fresher s (import_entries now millis a id inputs s).1
unfolding import_entries
import_entries-Fresher now millis a id inputs s room few =
    and_then-Fresher (validate_book_id id) s _ λ _. and_then-Fresher (require_book id s) s _ λ _.
      let loop = import_loop now millis id inputs empty_report s in
      let rounds = import_loop-Round now millis id inputs empty_report s (omega arith) in
      elim (Bool-cases (ltb 0 loop.0.inserted || ltb 0 loop.0.updated)) [
        | inl written ↦ rw written (committed loop.0 a id s loop.1 room rounds.generation_kept)
        | inr nothing ↦
            rw nothing
              (inl (rounds.generation_kept, unwritten loop.0 rounds.unless_written nothing))
      ]
