-- ===== src/Settings/Same.antt =====
-- Equality of maps and of providers, as the code tests it, is transitive.
use linguaray.Base.{
  ℕ, ◌≡◌, refl, inl, inr, ◌⊎◌, Bool, true, Option, none, some, [], ◌∷◌, arith, all, Text, same,
  same_iff,
}
use linguaray.Base.Maps.{HashMap, get}
use linguaray.Engine.{as_str}
use linguaray.Services.{same_time}
use linguaray.Settings.{ProviderConfigEntry}
use linguaray.Settings.State.{maps_to, same_map, same_option, same_provider}

Option-cases : {A : Type 0} (o : Option A) → (o ≡ none) ⊎ ((a : A) × (o ≡ some a))
Option-cases none = inl refl
Option-cases (some a) = inr (a, refl)

module _ {V : Type 0} where
  all-get :
      (p : Text × V → Bool) (k : Text) (m : HashMap V) (v : V)
      → all p m ≡ true
      → get k m ≡ some v
      → p (k, v) ≡ true
  all-get p k [] v h g = cc
  all-get p k ((j, w) ∷ m) v h g = ground (arith, same_iff j k, all-get p k m v)

  module _ (eq : V → V → Bool)
      (trans : (a b c : V) → eq a b ≡ true → eq b c ≡ true → eq a c ≡ true) where
    maps_to_trans :
        (b c : HashMap V) (e : Text × V) (o : Option V)
        → get e.0 b ≡ o
        → maps_to eq b e ≡ true
        → all (maps_to eq c) b ≡ true
        → maps_to eq c e ≡ true
    maps_to_trans b c (k, u) none g h n = ground arith
    maps_to_trans b c (k, u) (some v) g h n =
        let step = all-get (maps_to eq c) k b v n g in
        elim (Option-cases (get k c)) [
          | inl e ↦ ground arith
          | inr (w, e) ↦ ground (arith, trans u v w)
        ]

    all_maps_to_trans :
        (xs b c : HashMap V)
        → all (maps_to eq b) xs ≡ true
        → all (maps_to eq c) b ≡ true
        → all (maps_to eq c) xs ≡ true
    all_maps_to_trans [] b c h n = refl
    all_maps_to_trans (x ∷ xs) b c h n =
        ground (arith, maps_to_trans b c x (get x.0 b) refl, all_maps_to_trans xs b c)

    pub same_map_trans :
        (a b c : HashMap V)
        → same_map eq a b ≡ true
        → same_map eq b c ≡ true
        → same_map eq a c ≡ true
    unfolding same_map
    same_map_trans a b c h n = ground (arith, all_maps_to_trans a b c)

same_trans : (a b c : Text) → same a b ≡ true → same b c ≡ true → same a c ≡ true
same_trans a b c h n = ground (arith, same_iff a b, same_iff b c, same_iff a c)

same_option_trans :
    (a b c : Option Text) → same_option a b ≡ true → same_option b c ≡ true → same_option a c ≡ true
same_option_trans none none c h n = n
same_option_trans (some a) (some b) (some c) h n = same_trans a b c h n
same_option_trans none (some b) c h n = cc
same_option_trans (some a) none c h n = cc
same_option_trans (some a) (some b) none h n = cc

same_time_trans :
    (a b c : Option ℕ) → same_time a b ≡ true → same_time b c ≡ true → same_time a c ≡ true
same_time_trans none none c h n = n
same_time_trans (some a) (some b) (some c) h n = ground arith
same_time_trans none (some b) c h n = cc
same_time_trans (some a) none c h n = cc
same_time_trans (some a) (some b) none h n = cc

pub same_provider_trans :
    (a b c : ProviderConfigEntry)
    → same_provider a b ≡ true
    → same_provider b c ≡ true
    → same_provider a c ≡ true
unfolding same_provider
same_provider_trans a b c h n = ground (
  arith,
  same_trans a.id b.id c.id,
  same_trans (as_str a.kind) (as_str b.kind) (as_str c.kind),
  same_map_trans same same_trans a.fields b.fields c.fields,
  same_option_trans a.preset_id b.preset_id c.preset_id,
  same_time_trans a.created_at b.created_at c.created_at,
)
