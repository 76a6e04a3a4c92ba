-- ===== src/Services/Effective.antt =====
-- The effective order of the services: which ids are in it, and in which order.
use mathlib.Core.List.{Perm}
use mathlib.Core.Path.{subst}
use linguaray.Base.{
  none, some, all, All, ◌≤◌, le_text, ℕ, ◌≡◌, refl, ap, ◌∙◌, inl, inr, Bool, true, false, not, ◌&&◌,
  ◌||◌, Option, List, [], ◌∷◌, ◌++◌, arith, Bool-cases, retain, Text, same, same_iff, same_refl,
  le_text_total, le_text_trans, any-append,
}
use linguaray.Base.Keys.{Unique, Unique-retain}
use linguaray.Base.Sort.{sort_by, insert_by, IsSorted, sort_by-IsSorted, sort_by-perm}
use linguaray.Services.{
  lt_time, same_time, has, append_translation_service_order, remove_translation_service_order,
  older_first, effective_translation_service_order,
}

has-retain :
    (id : Text) (p : Text → Bool) (xs : List Text) → has id (retain p xs) ≡ (has id xs && p id)
has-retain id p [] = refl
has-retain id p (x ∷ xs) = elim (Bool-cases (same x id)) [
  | inl e ↦
      let names : x ≡ id = (same_iff x id).0 e in ground (arith, has-retain id p xs, ap p names)
  | inr n ↦ ground (arith, has-retain id p xs)
]

module _ (le : Text → Text → Bool) where
  has-insert_by :
      (id x : Text) (xs : List Text) → has id (insert_by le x xs) ≡ (same x id || has id xs)
  unfolding insert_by
  has-insert_by id x [] = ground arith
  has-insert_by id x (y ∷ ys) = ground (arith, has-insert_by id x ys)

  has-sort_by : (id : Text) (xs : List Text) → has id (sort_by le xs) ≡ has id xs
  unfolding sort_by
  has-sort_by id [] = refl
  has-sort_by id (x ∷ xs) =
      has-insert_by id x (sort_by le xs) ∙ ap (λ b. same x id || b) (has-sort_by id xs)

  Unique-insert_by :
      (x : Text) (xs : List Text)
      → has x xs ≡ false
      → Unique (λ t. t) xs
      → Unique (λ t. t) (insert_by le x xs)
  unfolding insert_by
  Unique-insert_by x [] fresh u = (refl, tt)
  Unique-insert_by x (y ∷ ys) fresh (fresh', u) = elim (Bool-cases (le x y)) [
    | inl e ↦ rw e (fresh, (fresh', u))
    | inr n ↦ rw n (
      has-insert_by y x ys ∙ ground (arith, same_iff x y, same_iff y x),
      Unique-insert_by x ys (ground arith) u,
    )
  ]

  Unique-sort_by : (xs : List Text) → Unique (λ t. t) xs → Unique (λ t. t) (sort_by le xs)
  unfolding sort_by
  Unique-sort_by [] u = tt
  Unique-sort_by (x ∷ xs) (fresh, u) =
      Unique-insert_by x (sort_by le xs) (has-sort_by x xs ∙ fresh) (Unique-sort_by xs u)

-- Two tests that agree on the ids of a list.
retain-agree :
    (p q : Text → Bool) (xs : List Text)
    → ((x : Text) → has x xs ≡ true → p x ≡ q x)
    → retain p xs ≡ retain q xs
retain-agree p q [] h = refl
retain-agree p q (x ∷ xs) h =
    let rest = retain-agree p q xs (λ y m. h y (ground arith)) in
    let first = h x (ground (arith, same_refl x)) in ground (arith, rest, first)

retain-append_one :
    (p : Text → Bool) (id : Text) (xs : List Text)
    → p id ≡ false
    → retain p (xs ++ id ∷ []) ≡ retain p xs
retain-append_one p id [] h = rw h refl
retain-append_one p id (x ∷ xs) h = ground (arith, retain-append_one p id xs h)

-- Two lists without an id in common.
Unique-join :
    (xs ys : List Text)
    → Unique (λ t. t) xs
    → Unique (λ t. t) ys
    → ((id : Text) → has id ys ≡ true → has id xs ≡ false)
    → Unique (λ t. t) (xs ++ ys)
Unique-join [] ys u v apart = v
Unique-join (x ∷ xs) ys (fresh, u) v apart = (
  any-append (λ t. same t x) xs ys ∙ ground (arith, apart x, same_refl x),
  Unique-join xs ys u v (λ id h. ground (arith, apart id h)),
)

-- No time comes before every time.
abbrev pub NoLater : Option ℕ → Option ℕ → Type 0
NoLater none t = Unit
NoLater (some a) none = ⊥
NoLater (some a) (some b) = a ≤ b

-- No service is older than one that stands before it.
abbrev pub OldestFirst : (Text → Option ℕ) → List Text → Type 0
OldestFirst created_at [] = Unit
OldestFirst created_at (id ∷ ids) =
    All (λ other. NoLater (created_at id) (created_at other)) ids × OldestFirst created_at ids

older_first-NoLater :
    (s t : Option ℕ) (rest : Bool) → (lt_time s t || (same_time s t && rest)) ≡ true → NoLater s t
older_first-NoLater none t rest h = tt
older_first-NoLater (some a) none rest h = absurd (ground arith)
older_first-NoLater (some a) (some b) rest h = ground arith

all-NoLater :
    (created_at : Text → Option ℕ) (id : Text) (ids : List Text)
    → all (older_first created_at id) ids ≡ true
    → All (λ other. NoLater (created_at id) (created_at other)) ids
unfolding older_first
all-NoLater created_at id [] h = tt
all-NoLater created_at id (other ∷ ids) h = (
  older_first-NoLater (created_at id) (created_at other) (le_text id other) (ground arith),
  all-NoLater created_at id ids (ground arith),
)

IsSorted-OldestFirst :
    (created_at : Text → Option ℕ) (ids : List Text)
    → IsSorted (older_first created_at) ids
    → OldestFirst created_at ids
IsSorted-OldestFirst created_at [] s = tt
IsSorted-OldestFirst created_at (id ∷ ids) (h, s) =
    (all-NoLater created_at id ids h, IsSorted-OldestFirst created_at ids s)

older_first_total :
    (created_at : Text → Option ℕ) (a b : Text)
    → (older_first created_at a b || older_first created_at b a) ≡ true
unfolding older_first
older_first_total created_at a b = ground (arith, le_text_total a b)

older_first_trans :
    (created_at : Text → Option ℕ) (a b c : Text)
    → older_first created_at a b ≡ true
    → older_first created_at b c ≡ true
    → older_first created_at a c ≡ true
unfolding older_first
older_first_trans created_at a b c h k = ground (arith, le_text_trans a b c)

-- An id is in the effective order when it is one of the translation services, stored or not.
has-effective :
    (stored ids : List Text) (created_at : Text → Option ℕ) (id : Text)
    → has id (effective_translation_service_order stored ids created_at) ≡ has id ids
unfolding effective_translation_service_order
has-effective stored ids created_at id =
    let order = retain (λ x. has x ids) stored in
    let missing = retain (λ x. not (has x order)) ids in
    ground (
      arith,
      any-append (λ x. same x id) order (sort_by (older_first created_at) missing),
      has-sort_by (older_first created_at) id missing,
      has-retain id (λ x. not (has x order)) ids,
      has-retain id (λ x. has x ids) stored,
    )

-- If neither the stored order nor the list of the translation services repeats an id, the effective
-- order has exactly the ids of those services, each once: first the stored ones in their stored
-- order, then the missing ones, those without a time of creation first and then the oldest first.
pub effective_order :
    (stored ids : List Text) (created_at : Text → Option ℕ)
    → Unique (λ t. t) stored
    → Unique (λ t. t) ids
    → ((id : Text)
        → has id (effective_translation_service_order stored ids created_at) ≡ has id ids)
      × Unique (λ t. t) (effective_translation_service_order stored ids created_at)
      × ((missing : List Text) × (effective_translation_service_order stored ids created_at
            ≡ retain (λ id. has id ids) stored ++ missing)
          × Perm missing (retain (λ id. not (has id stored)) ids)
          × OldestFirst created_at missing)
unfolding effective_translation_service_order
effective_order stored ids created_at u v =
    let order = retain (λ x. has x ids) stored in
    let missing = retain (λ x. not (has x order)) ids in
    (
      has-effective stored ids created_at,
      Unique-join order (sort_by (older_first created_at) missing)
          (Unique-retain (λ t. t) (λ x. has x ids) stored u)
          (Unique-sort_by (older_first created_at) missing
            (Unique-retain (λ t. t) (λ x. not (has x order)) ids v))
          (λ id h. ground (
            arith,
            has-sort_by (older_first created_at) id missing,
            has-retain id (λ x. not (has x order)) ids,
          )),
      (
        sort_by (older_first created_at) missing,
        refl,
        subst (Perm (sort_by (older_first created_at) missing))
            (retain-agree (λ x. not (has x order)) (λ x. not (has x stored)) ids
              (λ x h. ground (arith, has-retain x (λ y. has y ids) stored)))
            (sort_by-perm (older_first created_at) missing),
        IsSorted-OldestFirst created_at (sort_by (older_first created_at) missing) (
            sort_by-IsSorted (older_first created_at) (older_first_total created_at)
              (older_first_trans created_at) missing),
      ),
    )

-- Adding a service twice is adding it once; it is in the order then, and removing it gives what
-- removing it before would have given.
pub append_remove :
    (id : Text) (order : List Text)
    → (has id (append_translation_service_order id order) ≡ true)
      × (append_translation_service_order id (append_translation_service_order id order)
          ≡ append_translation_service_order id order)
      × (remove_translation_service_order id (append_translation_service_order id order)
          ≡ remove_translation_service_order id order)
      × (has id (remove_translation_service_order id order) ≡ false)
unfolding append_translation_service_order remove_translation_service_order
append_remove id order = elim (Bool-cases (has id order)) [
  | inl e ↦ rw e (e, rw e refl, refl, removed)
  | inr n ↦
      let there : has id (order ++ id ∷ []) ≡ true =
        any-append (λ x. same x id) order (id ∷ []) ∙ ground (arith, same_refl id) in
      rw n (there, rw there refl, without, removed)
]
  where
    removed : has id (retain (λ x. not (same x id)) order) ≡ false
    removed = has-retain id (λ x. not (same x id)) order ∙ ground (arith, same_refl id)

    without : retain (λ x. not (same x id)) (order ++ id ∷ []) ≡ retain (λ x. not (same x id)) order
    without = retain-append_one (λ x. not (same x id)) id order (ap not (same_refl id))
