-- ===== src/Ids/Search.antt =====
-- The search for a free id ends, and what it finds is free.
use linguaray.Base.{
  ℕ, zero, suc, ◌+◌, ◌%◌, ◌≤◌, ◌<◌, ◌≡◌, ◌≢◌, refl, sym, ◌∙◌, Bool, true, false, some, List, [],
  ◌∷◌, arith, if◌then◌else◌, Bool-cases, any, length, Text, same, same_iff, inl, inr, map,
  length-map,
}
use linguaray.Ids.{bump, make_id, next_id, id_fuel}
use linguaray.Ids.Digits.{make_id_inj}

-- An id that the search returns is free.
pub next_id-free :
    (f : ℕ) (millis : ℕ → ℕ) (taken : Text → Bool) (seq : ℕ) {id : Text} {seq' : ℕ}
    → next_id f millis taken seq ≡ some (id, seq')
    → taken id ≡ false
unfolding next_id
next_id-free zero millis taken seq h = cc
next_id-free (suc f) millis taken seq h =
    elim (Bool-cases (taken (make_id (millis 0) (bump seq)))) [
      | inl old ↦ next_id-free f (λ k. millis (suc k)) taken (bump seq) (rw old at h)
      | inr new ↦ ground arith
    ]

-- The candidate of round `j`.
candidate : (ℕ → ℕ) → ℕ → ℕ → Text
candidate millis seq zero = make_id (millis 0) (bump seq)
candidate millis seq (suc j) = candidate (λ k. millis (suc k)) (bump seq) j

counter : ℕ → ℕ → ℕ
counter seq zero = bump seq
counter seq (suc j) = counter (bump seq) j

counter-mod : (seq j : ℕ) → counter seq j % 4096 ≡ (seq + 1 + j) % 4096
unfolding counter
counter-mod seq zero = omega arith
counter-mod seq (suc j) = omega (arith, counter-mod (bump seq) j)

candidate-eq :
    (millis : ℕ → ℕ) (seq j : ℕ) → candidate millis seq j ≡ make_id (millis j) (counter seq j)
unfolding candidate counter
candidate-eq millis seq zero = refl
candidate-eq millis seq (suc j) = candidate-eq (λ k. millis (suc k)) (bump seq) j

candidate-ne :
    (millis : ℕ → ℕ) (seq j : ℕ)
    → suc j < 4096
    → candidate millis seq (suc j) ≢ candidate millis seq zero
candidate-ne millis seq j h e =
    let p =
      make_id_inj (millis (suc j)) (millis 0) (counter seq (suc j)) (counter seq zero)
        (sym (candidate-eq millis seq (suc j)) ∙ e ∙ candidate-eq millis seq zero) in
    absurd (omega (arith, p, counter-mod seq (suc j), counter-mod seq zero))

-- `xs` without the first `x`
pub without : Text → List Text → List Text
without x [] = []
without x (y ∷ ys) = let rest = without x ys in if same x y then ys else y ∷ rest

pub length-without :
    (x : Text) (xs : List Text) → any (same x) xs ≡ true → suc (length (without x xs)) ≡ length xs
unfolding without
length-without x [] h = cc
length-without x (y ∷ ys) h = ground (arith, length-without x ys)

pub any-without :
    (x z : Text) (xs : List Text) → z ≢ x → any (same z) (without x xs) ≡ any (same z) xs
unfolding without
any-without x z [] ne = refl
any-without x z (y ∷ ys) ne = ground (arith, same_iff x y, same_iff z y, any-without x z ys ne)

-- If all that is taken stands in `xs`, fewer candidates are taken than the search tries.
next_id_total :
    (f : ℕ) (millis : ℕ → ℕ) (taken : Text → Bool) (seq : ℕ) (xs : List Text)
    → ((j : ℕ)
        → j < f
        → taken (candidate millis seq j) ≡ true
        → any (same (candidate millis seq j)) xs ≡ true)
    → length xs < f
    → f ≤ 4096
    → (r : Text × ℕ) × (next_id f millis taken seq ≡ some r)
unfolding next_id candidate
next_id_total zero millis taken seq xs h l m = elim l [ ]
next_id_total (suc f) millis taken seq xs h l m =
    elim (Bool-cases (taken (make_id (millis 0) (bump seq)))) [
      | inr new ↦ ((make_id (millis 0) (bump seq), bump seq), rw new)
      | inl old ↦
          let first = candidate millis seq zero in
          let there = h zero (omega arith) old in
          rw old (
            next_id_total f (λ k. millis (suc k)) taken (bump seq) (without first xs)
              (λ j p t.
                rw
                  (any-without first (candidate millis seq (suc j)) xs
                    (candidate-ne millis seq j (omega arith)))
                  (h (suc j) (omega arith) t))
              (omega (arith, length-without first xs there)) (omega arith))
    ]

any-same-map :
    {A : Type 0} (key : A → Text) (id : Text) (xs : List A)
    → any (same id) (map key xs) ≡ any (λ x. same (key x) id) xs
any-same-map key id [] = refl
any-same-map key id (x ∷ xs) =
    ground (arith, same_iff id (key x), same_iff (key x) id, any-same-map key id xs)

-- In a store of fewer than 4096 entries the search for a free id ends, and what it finds is the
-- id of no entry, whatever the clock says in each round.
pub next_id-finds_free :
    {A : Type 0} (key : A → Text) (xs : List A) (millis : ℕ → ℕ) (seq : ℕ)
    → length xs < id_fuel
    → (r : Text × ℕ) × (next_id id_fuel millis (λ id. any (λ x. same (key x) id) xs) seq ≡ some r)
      × (any (λ x. same (key x) r.0) xs ≡ false)
next_id-finds_free key xs millis seq h =
    let taken : Text → Bool = λ id. any (λ x. same (key x) id) xs in
    let (r, e) =
      next_id_total id_fuel millis taken seq (map key xs)
        (λ j p t. any-same-map key (candidate millis seq j) xs ∙ t)
        (omega (arith, length-map key xs)) (omega arith) in
    (r, e, next_id-free id_fuel millis taken seq e)
