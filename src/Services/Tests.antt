-- ===== src/Services/Tests.antt =====
-- Runs of the order of the services, and its theorems at concrete orders.
use mathlib.Core.List.{Perm}
use linguaray.Base.{
  if◌then◌else◌, ℕ, ◌≡◌, refl, not, Option, none, some, List, [], ◌∷◌, ◌++◌, retain, Text, codes,
  same, starts_with, le_text,
}
use linguaray.Base.Keys.{Unique}
use linguaray.Base.Sort.{sort_by, insert_by}
use linguaray.Services.{
  has, remove_provider_from_translation_order, older_first, effective_translation_service_order,
}
use linguaray.Services.Effective.{OldestFirst, effective_order}

abbrev stored : List Text
stored = codes "b" ∷ codes "gone" ∷ []

abbrev ids : List Text
ids = codes "a" ∷ codes "b" ∷ codes "c" ∷ []

-- Only "a" has a time.
abbrev created_at : Text → Option ℕ
created_at id = if same id (codes "a") then some 5 else none

effective :
    effective_translation_service_order stored ids created_at
    ≡ codes "b" ∷ codes "c" ∷ codes "a" ∷ []
unfolding effective_translation_service_order same older_first le_text sort_by insert_by
effective = refl

provider_removed :
    remove_provider_from_translation_order (codes "x") (codes "x" ∷ codes "x+y" ∷ codes "xy" ∷ [])
    ≡ codes "xy" ∷ []
unfolding remove_provider_from_translation_order same starts_with
provider_removed = refl

stored_once : Unique (λ t. t) stored
unfolding same
stored_once = (refl, (refl, tt))

ids_once : Unique (λ t. t) ids
unfolding same
ids_once = (refl, (refl, (refl, tt)))

effective_order_example :
    ((id : Text) → has id (effective_translation_service_order stored ids created_at) ≡ has id ids)
    × Unique (λ t. t) (effective_translation_service_order stored ids created_at)
    × ((missing : List Text) × (effective_translation_service_order stored ids created_at
          ≡ retain (λ id. has id ids) stored ++ missing)
        × Perm missing (retain (λ id. not (has id stored)) ids)
        × OldestFirst created_at missing)
effective_order_example = effective_order stored ids created_at stored_once ids_once
