-- ===== src/Base/Sort.antt =====
-- `slice::sort_by`: a stable sort, here by insertion. What a caller sees of a stable sort by a
-- total preorder is settled by the order and stability alone.
use mathlib.Core.Path.{◌≡◌, refl}
use mathlib.Core.List.{List, [], ◌∷◌, Perm}
use mathlib.Core.List.Perm
use mathlib.Core.Logic.{inl, inr}
use mathlib.Core.Bool.{Bool, true, ◌||◌}
use native.Mathlib.Omega.{arith}
use linguaray.Base.Tests.{if◌then◌else◌, Bool-cases}
use linguaray.Base.Lists.{all}

module _ {ℓ} {A : Type ℓ} where
  -- `le a b` is `cmp(a, b) != Greater`.
  unfoldable pub insert_by : (A → A → Bool) → A → List A → List A
  insert_by le x [] = x ∷ []
  insert_by le x (y ∷ ys) = let rest = insert_by le x ys in if le x y then x ∷ y ∷ ys else y ∷ rest

  unfoldable pub sort_by : (A → A → Bool) → List A → List A
  unfolding insert_by
  sort_by le [] = []
  sort_by le (x ∷ xs) = insert_by le x (sort_by le xs)

  -- Every element stands before all that follow it.
  abbrev pub IsSorted : (A → A → Bool) → List A → Type 0
  IsSorted le [] = Unit
  IsSorted le (x ∷ xs) = (all (le x) xs ≡ true) × IsSorted le xs

module _ {ℓ} {A : Type ℓ} (le : A → A → Bool) where
  all_trans :
      ((a b c : A) → le a b ≡ true → le b c ≡ true → le a c ≡ true)
      → (x y : A) (xs : List A) → le x y ≡ true
      → all (le y) xs ≡ true
      → all (le x) xs ≡ true
  all_trans t x y [] h k = refl
  all_trans t x y (z ∷ zs) h k = ground (arith, t x y z, all_trans t x y zs)

  all-insert_by : (p : A → Bool) (x : A) (xs : List A) → all p (insert_by le x xs) ≡ all p (x ∷ xs)
  unfolding insert_by
  all-insert_by p x [] = refl
  all-insert_by p x (y ∷ ys) = ground (arith, all-insert_by p x ys)

  -- A property of all elements does not see the order.
  pub all-sort_by : (p : A → Bool) (xs : List A) → all p (sort_by le xs) ≡ all p xs
  unfolding sort_by
  all-sort_by p [] = refl
  all-sort_by p (x ∷ xs) = ground (arith, all-insert_by p x (sort_by le xs), all-sort_by p xs)

  module _ (total : (a b : A) → (le a b || le b a) ≡ true)
      (t : (a b c : A) → le a b ≡ true → le b c ≡ true → le a c ≡ true) where
    insert_by-IsSorted : (x : A) (xs : List A) → IsSorted le xs → IsSorted le (insert_by le x xs)
    unfolding insert_by
    insert_by-IsSorted x [] h = (refl, tt)
    insert_by-IsSorted x (y ∷ ys) h = elim (Bool-cases (le x y)) [
      | inl before ↦ rw before (ground (arith, all_trans t x y ys before h.0), h)
      | inr after ↦
          rw after
            (ground (arith, all-insert_by (le y) x ys, total x y), insert_by-IsSorted x ys h.1)
    ]

    -- A sort by a total preorder is in order.
    pub sort_by-IsSorted : (xs : List A) → IsSorted le (sort_by le xs)
    unfolding sort_by
    sort_by-IsSorted [] = tt
    sort_by-IsSorted (x ∷ xs) = insert_by-IsSorted x (sort_by le xs) (sort_by-IsSorted xs)

  insert_by-perm : (x : A) (xs : List A) → Perm (insert_by le x xs) (x ∷ xs)
  unfolding insert_by
  insert_by-perm x [] = Perm.refl (x ∷ [])
  insert_by-perm x (y ∷ ys) = elim (Bool-cases (le x y)) [
    | inl before ↦ rw before (Perm.refl (x ∷ y ∷ ys))
    | inr after ↦ rw after (Perm.trans (Perm.cons y (insert_by-perm x ys)) (Perm.swap x y ys))
  ]

  -- A sort loses and invents nothing.
  pub sort_by-perm : (xs : List A) → Perm (sort_by le xs) xs
  unfolding sort_by
  sort_by-perm [] = Perm.refl []
  sort_by-perm (x ∷ xs) =
      Perm.trans (insert_by-perm x (sort_by le xs)) (Perm.cons x (sort_by-perm xs))
