-- ===== src/Ids/Tests.antt =====
-- Runs of the search for an id.
use linguaray.Base.{ℕ, ◌≡◌, refl, false, some, List, [], ◌∷◌, arith, Text, codes, any, same}
use linguaray.Ids.{next_id, id_fuel}
use linguaray.Ids.Search.{next_id-finds_free}

abbrev taken_ids : List Text
taken_ids = codes "abc001" ∷ codes "x" ∷ []

-- The clock stands still: the counter decides.
second_try :
    next_id 3 (λ k. 0xabc) (λ id. any (λ x. same x id) taken_ids) 0 ≡ some (codes "abc002", 2)
unfolding next_id same
second_try = refl

next_id-finds_free_example :
    (r : Text × ℕ) × (next_id id_fuel (λ k. 0xabc) (λ id. any (λ x. same x id) taken_ids) 0
      ≡ some r)
    × (any (λ x. same x r.0) taken_ids ≡ false)
next_id-finds_free_example = next_id-finds_free (λ x. x) taken_ids (λ k. 0xabc) 0 (omega arith)
