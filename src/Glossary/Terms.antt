-- ===== src/Glossary/Terms.antt =====
-- In a book no two entries share an id, and no two share a term up to ASCII case.
use mathlib.Core.Path.{subst}
use mathlib.Core.Bool.{false≢true}
use linguaray.Base.{
  ℕ, ◌≡◌, refl, sym, ◌∙◌, ◌⊎◌, inl, inr, Bool, false, Option, none, some, List, [], ◌∷◌, map, arith,
  if◌then◌else◌, Bool-cases, Option-cases, any, find, update_first, Text, same, same_iff,
  ascii_lower, eq_ignore_ascii_case, any-of-find, any_of_found,
}
use linguaray.Base.Keys.{has_key, Unique, Unique-update_first, Unique-append}
use linguaray.Errors.{ok, Result-cases}
use linguaray.Glossary.{GlossaryEntry, GlossaryEntryInput, BookFile}
use linguaray.Glossary.Entries.{
  is_entry, has_term, Cleaned, entry_id, update_entry, new_entry, write_entry, apply_to_book,
}

-- Terms are compared in lower case.
abbrev pub term_key : GlossaryEntry → Text
term_key e = map ascii_lower e.term

pub record WellFormed (entries : List GlossaryEntry) : Type 0 where
  pub ids : Unique (λ e. e.id) entries
  pub terms : Unique term_key entries

abbrev pub without_first : (GlossaryEntry → Bool) → List GlossaryEntry → List GlossaryEntry
without_first p [] = []
without_first p (x ∷ xs) = let rest = without_first p xs in if p x then xs else x ∷ rest

any-update_first-false :
    (p q : GlossaryEntry → Bool) (f : GlossaryEntry → GlossaryEntry) (xs : List GlossaryEntry)
    → ((x : GlossaryEntry) → q (f x) ≡ false)
    → any q xs ≡ false
    → any q (update_first p f xs) ≡ false
any-update_first-false p q f [] h a = refl
any-update_first-false p q f (x ∷ xs) h a = ground (arith, h x, any-update_first-false p q f xs h)

any-without_first :
    (p q : GlossaryEntry → Bool) (xs : List GlossaryEntry)
    → any q xs ≡ false
    → any q (without_first p xs) ≡ false
any-without_first p q [] a = refl
any-without_first p q (x ∷ xs) a = ground (arith, any-without_first p q xs)

-- A term that no entry but the rewritten one has.
Unique-rekey :
    (p : GlossaryEntry → Bool) (f : GlossaryEntry → GlossaryEntry) (k : Text)
    (xs : List GlossaryEntry)
    → ((x : GlossaryEntry) → term_key (f x) ≡ k)
    → any (has_key term_key k) (without_first p xs) ≡ false
    → Unique term_key xs
    → Unique term_key (update_first p f xs)
Unique-rekey p f k [] h away u = tt
Unique-rekey p f k (x ∷ xs) h away (fresh, u) = elim (Bool-cases (p x)) [
  | inl e ↦ rw e (rw (h x) (rw e at away), u)
  | inr n ↦
      let free = rw (n, without_first) at away in
      let other : same (term_key x) k ≡ false = ground arith in
      rw n (
        any-update_first-false p (has_key term_key (term_key x)) f xs
            (λ y. rw (h y) (ground (arith, same_iff (term_key x) k, same_iff k (term_key x))))
            fresh,
        Unique-rekey p f k xs h (ground arith) u,
      )
]

entry_id-owner :
    (millis : ℕ → ℕ) (given : Option Text) (term : Text) (entries : List GlossaryEntry) (seq : ℕ)
    {id : Text} {seq' : ℕ}
    → entry_id millis given term entries seq ≡ ok (id, seq')
    → (find (has_term term) entries ≡ none)
      ⊎ ((other : GlossaryEntry) × (find (has_term term) entries ≡ some other) × (other.id ≡ id))
unfolding entry_id
entry_id-owner millis given term entries seq {id} h =
    elim (Option-cases (find (has_term term) entries)) [
      | inl absent ↦ inl absent
      | inr (other, found) ↦ inr (other, found, ground (arith, same_iff other.id id))
    ]

-- The entry that the term leads to is the one that is rewritten, so no other has the term.
only_owner :
    (id term : Text) (xs : List GlossaryEntry) (other : GlossaryEntry)
    → WellFormed xs
    → find (has_term term) xs ≡ some other
    → other.id ≡ id
    → any (has_term term) (without_first (is_entry id) xs) ≡ false
unfolding eq_ignore_ascii_case
only_owner id term [] other w h e = refl
only_owner id term (x ∷ xs) other w h e =
    let (fresh_id, ids) = w.ids in
    let (fresh_term, terms) = w.terms in
    let ih = only_owner id term xs other (record { ids = ids; terms = terms }) in
    elim (Bool-cases (has_term term x)) [
      | inl t ↦ elim (Bool-cases (is_entry id x)) [
        | inl here ↦ rw here (
            subst (λ k. any (has_key term_key k) xs ≡ false)
              ((same_iff (term_key x) (map ascii_lower term)).0 t) fresh_term)
        | inr there ↦ absurd (ground (arith, same_iff x.id id))
      ]
      | inr n ↦ elim (Bool-cases (is_entry id x)) [
        | inl here ↦
            let found : find (has_term term) xs ≡ some other = rw n at h in
            let again =
              any_of_found (has_term term) (is_entry id) xs other found
                ((same_iff other.id id).1 e) in
            let never : any (is_entry id) xs ≡ false = rw (← (same_iff x.id id).0 here) fresh_id in
            absurd (false≢true (sym never ∙ again))
        | inr there ↦ rw (there, n) (ih (rw n at h) e)
      ]
    ]

write_entry-WellFormed :
    (now : ℕ) (input : GlossaryEntryInput) (c : Cleaned) (id : Text) (xs : List GlossaryEntry)
    → WellFormed xs
    → (find (has_term c.term) xs ≡ none)
      ⊎ ((other : GlossaryEntry) × (find (has_term c.term) xs ≡ some other) × (other.id ≡ id))
    → WellFormed (write_entry now input c id xs).1
unfolding write_entry eq_ignore_ascii_case
write_entry-WellFormed now input c id xs w owner = elim (Option-cases (find (is_entry id) xs)) [
  | inl new ↦
      rw (new, write_entry)
        (record {
          ids =
              Unique-append (λ e. e.id) xs (new_entry now input c id) w.ids
                (any-of-find (is_entry id) xs new);
          terms = Unique-append term_key xs (new_entry now input c id) w.terms (elim owner [
            | inl absent ↦ any-of-find (has_term c.term) xs absent
            | inr (other, found, named) ↦ absurd (
                false≢true (
                  sym (any-of-find (is_entry id) xs new)
                  ∙ any_of_found (has_term c.term) (is_entry id) xs other found
                      ((same_iff other.id id).1 named)))
          ]);
        })
  | inr (e, old) ↦
      rw (old, write_entry)
        (record {
          ids =
              Unique-update_first (λ e. e.id) (is_entry id) (update_entry now input c) xs
                (λ x m. refl) w.ids;
          terms =
              Unique-rekey (is_entry id) (update_entry now input c) (map ascii_lower c.term) xs
                (λ x. refl)
                (elim owner [
                  | inl absent ↦
                      any-without_first (is_entry id) (has_term c.term) xs
                        (any-of-find (has_term c.term) xs absent)
                  | inr (other, found, named) ↦ only_owner id c.term xs other w found named
                ])
                w.terms;
        })
]

-- Writing an entry into a book keeps its ids and its terms apart, whether the entry is new, is
-- found by its id or by its term, and whatever the texts are.
pub apply_to_book-WellFormed :
    (now : ℕ) (millis : ℕ → ℕ) (input : GlossaryEntryInput) (c : Cleaned) (b : BookFile) (seq : ℕ)
    (entry : GlossaryEntry) (b' : BookFile) (seq' : ℕ)
    → WellFormed b.entries
    → apply_to_book now millis input c b seq ≡ ok (entry, b', seq')
    → WellFormed b'.entries
unfolding apply_to_book
apply_to_book-WellFormed now millis input c b seq entry b' seq' w h =
    elim (Result-cases (entry_id millis input.id c.term b.entries seq)) [
      | inr (e, failed) ↦ absurd (ground arith)
      | inl ((id, left), made) ↦
          let owner = entry_id-owner millis input.id c.term b.entries seq made in
          let written = write_entry-WellFormed now input c id b.entries w owner in
          let entries : b'.entries ≡ (write_entry now input c id b.entries).1 = ground arith in
          rw entries written
    ]
