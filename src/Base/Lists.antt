-- ===== src/Base/Lists.antt =====
-- Lists measured by native numbers, and the searches that Rust's iterators make: `any`, `all`,
-- `find`, `position`, and `Vec::retain`.
use Prim.Native.Nat.{ℕ, zero, suc, ◌+◌, ◌≤◌}
use mathlib.Core.Path.{◌≡◌, refl, ap}
use mathlib.Core.List.{List, [], ◌∷◌, ◌++◌, map}
use mathlib.Core.Bool.{Bool, true, false, ◌&&◌, ◌||◌}
use mathlib.Core.Option.{Option, none, some}
use native.Mathlib.Omega.{arith}
use linguaray.Base.Tests.{if◌then◌else◌}

module _ {ℓ} {A : Type ℓ} where
  abbrev pub length : List A → ℕ
  length [] = 0
  length (x ∷ xs) = suc (length xs)

  pub length-append : (xs ys : List A) → length (xs ++ ys) ≡ length xs + length ys
  length-append [] ys = omega arith
  length-append (x ∷ xs) ys = omega (arith, length-append xs ys)

  abbrev pub take : ℕ → List A → List A
  take zero xs = []
  take (suc n) [] = []
  take (suc n) (x ∷ xs) = x ∷ take n xs

  abbrev pub drop : ℕ → List A → List A
  drop zero xs = xs
  drop (suc n) [] = []
  drop (suc n) (x ∷ xs) = drop n xs

  abbrev pub is_empty : List A → Bool
  is_empty [] = true
  is_empty (x ∷ xs) = false

  -- `iter().any(p)`
  abbrev pub any : (A → Bool) → List A → Bool
  any p [] = false
  any p (x ∷ xs) = p x || any p xs

  -- `iter().all(p)`
  abbrev pub all : (A → Bool) → List A → Bool
  all p [] = true
  all p (x ∷ xs) = p x && all p xs

  -- `iter().find(p)`
  abbrev pub find : (A → Bool) → List A → Option A
  find p [] = none
  find p (x ∷ xs) = if p x then some x else find p xs

  -- `Vec::retain(p)`, and `iter().filter(p).collect()`
  abbrev pub retain : (A → Bool) → List A → List A
  retain p [] = []
  retain p (x ∷ xs) = let rest = retain p xs in if p x then x ∷ rest else rest

  -- `entries[position(p)] = f(entry)`: the first element that passes is replaced.
  abbrev pub update_first : (A → Bool) → (A → A) → List A → List A
  update_first p f [] = []
  update_first p f (x ∷ xs) = let rest = update_first p f xs in if p x then f x ∷ xs else x ∷ rest

  -- Every element passes.
  abbrev pub All {κ} : (A → Type κ) → List A → Type κ
  All P [] = Unit
  All P (x ∷ xs) = P x × All P xs

module _ {ℓ} {A : Type ℓ} where
  pub length-retain-le : (p : A → Bool) (xs : List A) → length (retain p xs) ≤ length xs
  length-retain-le p [] = omega arith
  length-retain-le p (x ∷ xs) = ground (arith, length-retain-le p xs)

  pub retain-retain : (p : A → Bool) (xs : List A) → retain p (retain p xs) ≡ retain p xs
  retain-retain p [] = refl
  retain-retain p (x ∷ xs) = ground (arith, retain-retain p xs)

  pub any-retain-false :
      (p q : A → Bool) (xs : List A) → any q xs ≡ false → any q (retain p xs) ≡ false
  any-retain-false p q [] h = refl
  any-retain-false p q (x ∷ xs) h = ground (arith, any-retain-false p q xs)

  pub all-retain : (p : A → Bool) (xs : List A) → all p (retain p xs) ≡ true
  all-retain p [] = refl
  all-retain p (x ∷ xs) = ground (arith, all-retain p xs)

  pub find-none : (p : A → Bool) (xs : List A) → any p xs ≡ false → find p xs ≡ none
  find-none p [] h = refl
  find-none p (x ∷ xs) h = ground (arith, find-none p xs)

  pub find-some : (p : A → Bool) (xs : List A) (a : A) → find p xs ≡ some a → (p a ≡ true)
  find-some p [] a h = cc
  find-some p (x ∷ xs) a h = ground (arith, find-some p xs a)

  pub any-append : (p : A → Bool) (xs ys : List A) → any p (xs ++ ys) ≡ any p xs || any p ys
  any-append p [] ys = refl
  any-append p (x ∷ xs) ys = ground (arith, any-append p xs ys)

  pub length-update_first :
      (p : A → Bool) (f : A → A) (xs : List A) → length (update_first p f xs) ≡ length xs
  length-update_first p f [] = refl
  length-update_first p f (x ∷ xs) = ground (arith, length-update_first p f xs)

pub length-map {ℓ κ} :
    {A : Type ℓ} {B : Type κ} (f : A → B) (xs : List A) → length (map f xs) ≡ length xs
length-map f [] = refl
length-map f (x ∷ xs) = ap suc (length-map f xs)

-- `retain` keeps all or shortens.
pub retain-eq_of_length {ℓ} :
    {A : Type ℓ} (p : A → Bool) (xs : List A) → length (retain p xs) ≡ length xs → retain p xs ≡ xs
retain-eq_of_length p [] h = refl
retain-eq_of_length p (x ∷ xs) h = ground (arith, retain-eq_of_length p xs, length-retain-le p xs)

pub update_first-eq_of_none {ℓ} :
    {A : Type ℓ} (p : A → Bool) (f : A → A) (xs : List A)
    → any p xs ≡ false
    → update_first p f xs ≡ xs
update_first-eq_of_none p f [] h = refl
update_first-eq_of_none p f (x ∷ xs) h = ground (arith, update_first-eq_of_none p f xs)

module _ {ℓ} {A : Type ℓ} (p q : A → Bool) where
  pub all_imp :
      (xs : List A) → ((x : A) → p x ≡ true → q x ≡ true) → all p xs ≡ true → all q xs ≡ true
  all_imp [] f h = refl
  all_imp (x ∷ xs) f h = ground (arith, f x, all_imp xs f)

  pub all-retain_of_all : (xs : List A) → all q xs ≡ true → all q (retain p xs) ≡ true
  all-retain_of_all [] h = refl
  all-retain_of_all (x ∷ xs) h = ground (arith, all-retain_of_all xs)

  -- What passes `q` is not touched by a filter that `q` implies.
  pub retain-retain_of_imp :
      (xs : List A) → ((x : A) → q x ≡ true → p x ≡ true) → retain q (retain p xs) ≡ retain q xs
  retain-retain_of_imp [] f = refl
  retain-retain_of_imp (x ∷ xs) f = ground (arith, f x, retain-retain_of_imp xs f)

  pub any-update_first :
      (f : A → A) (xs : List A)
      → ((x : A) → p x ≡ true → q (f x) ≡ q x)
      → any q (update_first p f xs) ≡ any q xs
  any-update_first f [] h = refl
  any-update_first f (x ∷ xs) h = ground (arith, h x, any-update_first f xs h)

pub any-of-find {ℓ} :
    {A : Type ℓ} (p : A → Bool) (xs : List A) → find p xs ≡ none → any p xs ≡ false
any-of-find p [] h = refl
any-of-find p (x ∷ xs) h = ground (arith, any-of-find p xs)

module _ {ℓ} {A : Type ℓ} (p : A → Bool) where
  pub retain-append : (xs ys : List A) → retain p (xs ++ ys) ≡ retain p xs ++ retain p ys
  retain-append [] ys = refl
  retain-append (x ∷ xs) ys = ground (arith, retain-append xs ys)

  pub any-of_find : (xs : List A) (x : A) → find p xs ≡ some x → any p xs ≡ true
  any-of_find [] x h = cc
  any-of_find (y ∷ ys) x h = ground (arith, any-of_find ys x)

  pub any-retain_of_find :
      (q : A → Bool) (xs : List A) (x : A)
      → find p xs ≡ some x
      → q x ≡ true
      → any p (retain q xs) ≡ true
  any-retain_of_find q [] x h e = cc
  any-retain_of_find q (y ∷ ys) x h e = ground (arith, any-retain_of_find q ys x)

pub all_cons {ℓ} :
    {A : Type ℓ} (p : A → Bool) (x : A) (xs : List A)
    → p x ≡ true
    → all p xs ≡ true
    → all p (x ∷ xs) ≡ true
all_cons p x xs h k = rw h k

-- What is found is an element.
pub any_of_found {ℓ} :
    {A : Type ℓ} (p q : A → Bool) (xs : List A) (a : A)
    → find p xs ≡ some a
    → q a ≡ true
    → any q xs ≡ true
any_of_found p q [] a h e = cc
any_of_found p q (x ∷ xs) a h e = ground (arith, any_of_found p q xs a)
