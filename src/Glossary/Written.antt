-- ===== src/Glossary/Written.antt =====
-- What the files of the books hold after a commit, and after `upsert_entry`.
use mathlib.Core.Path.{subst}
use linguaray.Base.{
  sym, ℕ, ◌≡◌, refl, ap, ◌∙◌, inl, inr, some, arith, Bool-cases, Option-cases, Text, bump_u64, same,
  same_iff, same_refl, if◌then◌else◌,
}
use linguaray.Errors.{no_such_book, write_failed, Result, ok, err}
use linguaray.Storage.{Attempt, Directory, write_bytes}
use linguaray.Storage.Atomic.{destination-write_atomic}
use linguaray.Glossary.{
  GlossaryEntryInput, BookFile, GlossaryStore, get_book_file, write_book, commit, and_then,
  validate_book_id, forget,
}
use linguaray.Glossary.Books.{apply_entry, upsert_entry}

-- The file of a book holds the book of the store.
abbrev pub Holds : Text → GlossaryStore → Type 0
Holds id t =
    (b : BookFile) × (get_book_file id t.books ≡ some b) × ((t.files b.id).destination ≡ some b)

-- After `Ok` the file of the book holds what the store holds; after an error every file is the one
-- of before.
abbrev pub Written {ℓ} : {A : Type ℓ} → Text → GlossaryStore → Result A × GlossaryStore → Type 0
Written id s (ok _, t) = Holds id t
Written id s (err _, t) = (other : Text) → (t.files other).destination ≡ (s.files other).destination

placed-Written :
    (r : Result (Unit {0})) (final : Directory BookFile) (id : Text) (b : BookFile)
    (s : GlossaryStore)
    → get_book_file id s.books ≡ some b
    → final.destination ≡ elim r [ ok _ ↦ some b | err _ ↦ (s.files b.id).destination ]
    → Written id s
        (r, record s { files = λ other. if same b.id other then final else s.files other })
placed-Written (ok _) final id b s h e = (b, h, rw (same_refl b.id) e)
placed-Written (err _) final id b s h e = λ other. elim (Bool-cases (same b.id other)) [
  | inl named ↦ rw named (e ∙ ap (λ o. (s.files o).destination) ((same_iff b.id other).0 named))
  | inr n ↦ rw n refl
]

write_book-Written :
    (a : Attempt) (id : Text) (b : BookFile) (s : GlossaryStore)
    → get_book_file id s.books ≡ some b
    → Written id s (write_book a b s)
unfolding write_book write_bytes
write_book-Written a id b s h = elim (Bool-cases a.encoded) [
  | inl e ↦
      let o = write_bytes a b (s.files b.id) in
      rw (e, Written)
        (placed-Written o.result o.final id b s h (
          destination-write_atomic a (if a.written then ok tt else err write_failed) b
            (s.files b.id)))
  | inr n ↦ rw (n, Written) (λ other. refl)
]

-- The part before the commit leaves the files alone.
Written-transfer {ℓ} :
    {A : Type ℓ} (id : Text) (s t : GlossaryStore) (p : Result A × GlossaryStore)
    → t.files ≡ s.files
    → Written id t p
    → Written id s p
Written-transfer id s t (ok _, u) e h = h
Written-transfer id s t (err _, u) e h = λ other. h other ∙ ap (λ f. (f other).destination) e

commit-Written : (a : Attempt) (id : Text) (s : GlossaryStore) → Written id s (commit a id s)
unfolding commit
commit-Written a id s = elim (Option-cases (get_book_file id s.books)) [
  | inl absent ↦
      let runs : commit a id s ≡ (err (no_such_book id), s') = rw (absent, commit) refl in
      subst (Written id s) (sym runs) (λ other. refl)
  | inr (b, found) ↦
      let runs : commit a id s ≡ write_book a b s' = rw (found, commit) refl in
      subst (Written id s) (sym runs)
        (Written-transfer id s s' (write_book a b s') refl (write_book-Written a id b s' found))
]
  where
    s' : GlossaryStore
    s' = record s { generation = bump_u64 s.generation; pending_hits = forget id s.pending_hits }

and_then-Written {ℓ κ} :
    {A : Type ℓ} {B : Type κ} (id : Text) (r : Result A) (s : GlossaryStore)
    (k : A → GlossaryStore → Result B × GlossaryStore)
    → ((v : A) → r ≡ ok v → Written id s (k v s))
    → Written id s (and_then (r, s) k)
unfolding and_then
and_then-Written id (ok v) s k h = h v refl
and_then-Written id (err e) s k h = λ other. refl

-- After a commit that returns `Ok` the method does.
committed-Written {ℓ} :
    {A : Type ℓ} (v : A) (id : Text) (s : GlossaryStore) (p : Result (Unit {0}) × GlossaryStore)
    → Written id s p
    → Written id s (and_then p (λ _ t. (ok v, t)))
unfolding and_then
committed-Written v id s (ok _, t) h = h
committed-Written v id s (err _, t) h = h

applied-Written {ℓ} :
    {A : Type ℓ} (a : Attempt) (id : Text) (s : GlossaryStore) (p : Result A × GlossaryStore)
    → p.1.files ≡ s.files
    → Written id s (and_then p (λ v t. and_then (commit a id t) (λ _ u. (ok v, u))))
unfolding and_then
applied-Written a id s (ok v, t) e =
    Written-transfer id s t _ e (committed-Written v id t (commit a id t) (commit-Written a id t))
applied-Written a id s (err _, t) e = λ other. ap (λ f. (f other).destination) e

files-apply_entry :
    (now : ℕ) (millis : ℕ → ℕ) (id : Text) (input : GlossaryEntryInput) (s : GlossaryStore)
    → (apply_entry now millis id input s).1.files ≡ s.files
unfolding apply_entry and_then
files-apply_entry now millis id input s = ground arith

-- If `upsert_entry` returns `Ok`, the book's file holds the book as it is in the store; if it
-- returns an error, every file holds what it held before.
pub upsert_entry-Written :
    (now : ℕ) (millis : ℕ → ℕ) (a : Attempt) (id : Text) (input : GlossaryEntryInput)
    (s : GlossaryStore)
    → Written id s (upsert_entry now millis a id input s)
unfolding upsert_entry
upsert_entry-Written now millis a id input s = and_then-Written id (validate_book_id id) s _ λ _ _.
    applied-Written a id s (apply_entry now millis id input s)
      (files-apply_entry now millis id input s)
