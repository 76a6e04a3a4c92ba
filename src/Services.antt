-- ===== src/Services.antt =====
-- packages/runtime/rust/src/domain/settings/service_order.rs: the order of the translation
-- services, `settings.general.translation_service_order`, a list of service ids.
pub mod Effective
mod Tests
use linguaray.Base.{
  ℕ, Bool, true, false, not, ◌&&◌, ◌||◌, Option, none, some, List, [], ◌∷◌, ◌++◌, ltb, ◌==◌,
  if◌then◌else◌, any, retain, Text, codes, same, le_text, starts_with,
}
use linguaray.Base.Sort.{sort_by}

-- `order.iter().any(|existing| existing == id)`
abbrev pub has : Text → List Text → Bool
has id order = any (λ existing. same existing id) order

unfoldable pub append_translation_service_order : Text → List Text → List Text
append_translation_service_order id order = if not (has id order) then order ++ id ∷ [] else order

unfoldable pub remove_translation_service_order : Text → List Text → List Text
remove_translation_service_order id order = retain (λ other. not (same other id)) order

-- A provider goes with the services that are named after it, `provider+service`.
unfoldable pub remove_provider_from_translation_order : Text → List Text → List Text
remove_provider_from_translation_order provider order =
    let prefix = provider ++ codes "+" in
    retain (λ id. not (same id provider) && not (starts_with id prefix)) order

-- `Ord` of `Option<u64>`: no time comes before every time.
abbrev pub lt_time : Option ℕ → Option ℕ → Bool
lt_time none none = false
lt_time none (some b) = true
lt_time (some a) none = false
lt_time (some a) (some b) = ltb a b

abbrev pub same_time : Option ℕ → Option ℕ → Bool
same_time none none = true
same_time (some a) (some b) = a == b
same_time _ _ = false

-- `created_at` is the map's `get(id).copied().flatten()`.
unfoldable pub older_first : (Text → Option ℕ) → Text → Text → Bool
older_first created_at a b =
    lt_time (created_at a) (created_at b)
    || (same_time (created_at a) (created_at b) && le_text a b)

unfoldable pub effective_translation_service_order :
    List Text → List Text → (Text → Option ℕ) → List Text
unfolding older_first
effective_translation_service_order stored ids created_at =
    let order = retain (λ id. has id ids) stored in
    let missing = retain (λ id. not (has id order)) ids in
    order ++ sort_by (older_first created_at) missing
