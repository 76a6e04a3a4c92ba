-- ===== src/Base/Keys.antt =====
-- Lists whose elements carry an id, and the invariant that no two share one.
use mathlib.Core.Path.{◌≡◌, refl, ap}
use mathlib.Core.List.{List, [], ◌∷◌, ◌++◌}
use mathlib.Core.Logic.{inl, inr}
use mathlib.Core.Bool.{Bool, true, false}
use mathlib.Core.Option.{none, some}
use native.Mathlib.Omega.{arith}
use linguaray.Base.Tests.{if◌then◌else◌, Bool-cases}
use linguaray.Base.Lists.{
  any, find, retain, update_first, any-retain-false, any-update_first, any-append, find-none,
}
use linguaray.Base.Texts.{Text, same, same_iff}

-- `entry.id == id`
abbrev pub has_key {ℓ} : {A : Type ℓ} → (A → Text) → Text → A → Bool
has_key key id x = same (key x) id

abbrev pub Unique {ℓ} : {A : Type ℓ} → (A → Text) → List A → Type 0
Unique key [] = Unit
Unique key (x ∷ xs) = (any (has_key key (key x)) xs ≡ false) × Unique key xs

module _ {ℓ} {A : Type ℓ} (key : A → Text) where
  pub Unique-retain : (p : A → Bool) (xs : List A) → Unique key xs → Unique key (retain p xs)
  Unique-retain p [] u = tt
  Unique-retain p (x ∷ xs) (fresh, u) = elim (Bool-cases (p x)) [
    | inl e ↦ rw e (any-retain-false p (has_key key (key x)) xs fresh, Unique-retain p xs u)
    | inr n ↦ rw n (Unique-retain p xs u)
  ]

  -- A write in place that leaves the id alone.
  pub Unique-update_first :
      (p : A → Bool) (f : A → A) (xs : List A)
      → ((x : A) → p x ≡ true → key (f x) ≡ key x)
      → Unique key xs
      → Unique key (update_first p f xs)
  Unique-update_first p f [] h u = tt
  Unique-update_first p f (x ∷ xs) h (fresh, u) = elim (Bool-cases (p x)) [
    | inl e ↦ rw (e, h x e) (fresh, u)
    | inr n ↦ rw n (
      (rw (any-update_first p (has_key key (key x)) f xs (λ y e. ap (λ k. same k (key x)) (h y e)))
          fresh),
      Unique-update_first p f xs h u,
    )
  ]

  pub Unique-append :
      (xs : List A) (x : A)
      → Unique key xs
      → any (has_key key (key x)) xs ≡ false
      → Unique key (xs ++ x ∷ [])
  Unique-append [] x u h = (refl, tt)
  Unique-append (y ∷ ys) x (fresh, u) h = (
    ground (
      arith,
      any-append (has_key key (key y)) ys (x ∷ []),
      same_iff (key x) (key y),
      same_iff (key y) (key x),
    ),
    Unique-append ys x u (ground arith),
  )

  -- Looking up what was written.
  pub find-append :
      (p : A → Bool) (xs : List A) (x : A)
      → any p xs ≡ false
      → p x ≡ true
      → find p (xs ++ x ∷ []) ≡ some x
  find-append p [] x h e = rw e
  find-append p (y ∷ ys) x h e = ground (arith, find-append p ys x)

  pub find-update_first :
      (p : A → Bool) (x : A) (xs : List A)
      → any p xs ≡ true
      → p x ≡ true
      → find p (update_first p (λ _. x) xs) ≡ some x
  find-update_first p x [] h e = cc
  find-update_first p x (y ∷ ys) h e = ground (arith, find-update_first p x ys)

  -- What a filter does to the entry of an id.
  pub find-retain :
      (p : A → Bool) (id : Text) (xs : List A) (x : A)
      → Unique key xs
      → find (has_key key id) xs ≡ some x
      → find (has_key key id) (retain p xs) ≡ (if p x then some x else none)
  find-retain p id [] x u h = cc
  find-retain p id (y ∷ ys) x (fresh, u) h = elim (Bool-cases (same (key y) id)) [
    | inl e ↦
        let here : any (has_key key id) ys ≡ false = rw (← (same_iff (key y) id).0 e) fresh in
        let gone =
          find-none (has_key key id) (retain p ys) (any-retain-false p (has_key key id) ys here) in
        ground arith
    | inr n ↦ ground (arith, find-retain p id ys x u)
  ]

  -- The last element's id is that of no other.
  pub Unique-append_inv :
      (xs : List A) (x : A) → Unique key (xs ++ x ∷ []) → any (has_key key (key x)) xs ≡ false
  Unique-append_inv [] x u = refl
  Unique-append_inv (y ∷ ys) x (fresh, u) = ground (
    arith,
    any-append (has_key key (key y)) ys (x ∷ []),
    same_iff (key x) (key y),
    same_iff (key y) (key x),
    Unique-append_inv ys x u,
  )
