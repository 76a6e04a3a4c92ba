-- ===== src/Settings/Seeded.antt =====
-- Seeding leaves what a user has set up as it is.
use linguaray.Base.{
  ℕ, ◌≡◌, ◌∙◌, refl, sym, ◌⊎◌, Bool, true, false, ◌&&◌, none, [], ◌∷◌, arith, codes, is_empty, Text,
  same, same_iff, if◌then◌else◌, Bool-cases, inl, inr, ltb, leb,
}
use linguaray.Base.Maps.{HashMap, get, or_insert, contains_key, get-insert, get-none}
use linguaray.Settings.{Settings}
use linguaray.Settings.Seed.{
  is_legacy_system_only, first_seed, second_seed, third_seed, all_seeds, catalog_seed_revision,
  apply_catalog_seed_for,
}

-- Settings that hold more than what an old version has put there
pub record IsUsed (s : Settings) : Type 0 where
  pub not_legacy : is_legacy_system_only s ≡ false
  pub not_empty : is_empty s.providers && is_empty s.services ≡ false

-- What was there is there as it was.
abbrev pub KeptUnless : {A : Type 0} → A → A → A → Type 0
KeptUnless empty before after = (before ≡ empty) ⊎ (after ≡ before)

-- Every provider is there as it was, services and order are the same, and so is a default that has
-- been chosen.
pub record Keeps (s s' : Settings) : Type 0 where
  pub providers : (id : Text) → KeptUnless none (get id s.providers) (get id s'.providers)
  pub services : s'.services ≡ s.services
  pub order : s'.general.translation_service_order ≡ s.general.translation_service_order
  pub translation : s'.general.default_translation_service ≡ s.general.default_translation_service
  pub directory :
      KeptUnless [] s.general.default_directory_service s'.general.default_directory_service
  pub ocr : KeptUnless [] s.general.default_ocr_service s'.general.default_ocr_service

or_insert_keeps :
    {V : Type 0} (k : Text) (v : V) (m : HashMap V) (id : Text)
    → KeptUnless none (get id m) (get id (or_insert k v m))
or_insert_keeps k v m id = elim (Bool-cases (contains_key k m)) [
  | inl there ↦ inr (rw there refl)
  | inr new ↦ elim (Bool-cases (same k id)) [
    | inl e ↦ inl (get-none id m (rw (← (same_iff k id).0 e) new))
    | inr n ↦ inr (rw (new, get-insert id k v m, n) refl)
  ]
]

empty_or : (d : Text) → (d ≡ []) ⊎ (is_empty d ≡ false)
empty_or [] = inl refl
empty_or (c ∷ d) = inr refl

kept_trans :
    {A : Type 0} {empty a b c : A}
    → KeptUnless empty a b
    → KeptUnless empty b c
    → KeptUnless empty a c
kept_trans (inl e) l = inl e
kept_trans (inr k) (inl e) = inl (sym k ∙ e)
kept_trans (inr k) (inr l) = inr (l ∙ k)

first_same : (macos : Bool) (s : Settings) → IsUsed s → first_seed macos s ≡ s
unfolding first_seed
first_same macos s u = rw (u.not_legacy, u.not_empty) refl

second-Keeps : (s : Settings) → Keeps s (second_seed s)
unfolding second_seed
second-Keeps s = record {
  providers = or_insert_keeps (codes "ecdict") _ s.providers;
  services = refl;
  order = ground arith;
  translation = ground arith;
  directory = elim (empty_or s.general.default_directory_service) [
    | inl e ↦ inl e
    | inr n ↦ inr (rw n refl)
  ];
  ocr = inr (ground arith);
}

third_providers :
    (macos : Bool) (s : Settings) (id : Text)
    → KeptUnless none (get id s.providers) (get id (third_seed macos s).providers)
unfolding third_seed
third_providers true s id = inr refl
third_providers false s id = or_insert_keeps (codes "system") _ s.providers id

third-Keeps : (macos : Bool) (s : Settings) → Keeps s (third_seed macos s)
unfolding third_seed
third-Keeps macos s = record {
  providers = third_providers macos s;
  services = refl;
  order = ground arith;
  translation = ground arith;
  directory = inr (ground arith);
  ocr = elim (empty_or s.general.default_ocr_service) [
    | inl e ↦ inl e
    | inr n ↦ inr (ground arith)
  ];
}

Keeps-refl : (s : Settings) → Keeps s s
Keeps-refl s = record {
  providers = λ id. inr refl;
  services = refl;
  order = refl;
  translation = refl;
  directory = inr refl;
  ocr = inr refl;
}

Keeps-trans : {s t u : Settings} → Keeps s t → Keeps t u → Keeps s u
Keeps-trans {s} {t} {u} k l = record {
  providers = λ id. kept_trans (k.providers id) (l.providers id);
  services = l.services ∙ k.services;
  order = l.order ∙ k.order;
  translation = l.translation ∙ k.translation;
  directory = kept_trans k.directory l.directory;
  ocr = kept_trans k.ocr l.ocr;
}

if_Keeps : (b : Bool) (s t : Settings) → Keeps s t → Keeps s (if b then t else s)
if_Keeps true s t k = k
if_Keeps false s t k = Keeps-refl s

all_seeds-Keeps : (macos : Bool) (s : Settings) → IsUsed s → Keeps s (all_seeds macos s)
unfolding all_seeds
all_seeds-Keeps macos s u =
    let second : Settings = if ltb s.catalog_seed_revision 2 then second_seed s else s in
    let to_second : Keeps s second =
      if_Keeps (ltb s.catalog_seed_revision 2) s (second_seed s) (second-Keeps s) in
    rw (first_same macos s u) (
      Keeps-trans to_second (
        if_Keeps (ltb s.catalog_seed_revision 3) second (third_seed macos second)
          (third-Keeps macos second)))

stamped-Keeps :
    (s t : Settings) (n : ℕ) → Keeps s t → Keeps s (record t { catalog_seed_revision = n })
stamped-Keeps s t n k = record {
  providers = k.providers;
  services = k.services;
  order = k.order;
  translation = k.translation;
  directory = k.directory;
  ocr = k.ocr;
}

-- Seeding settings that are used keeps every provider as it is, the services, their order, the
-- default translation service and every other default that has been chosen, and a second seeding
-- changes nothing.
pub apply_catalog_seed-Keeps :
    (s : Settings) (macos : Bool)
    → IsUsed s
    → Keeps s (apply_catalog_seed_for s macos).1
      × (apply_catalog_seed_for (apply_catalog_seed_for s macos).1 macos
          ≡ (false, (apply_catalog_seed_for s macos).1))
unfolding apply_catalog_seed_for
apply_catalog_seed-Keeps s macos u = (
  elim (Bool-cases (leb catalog_seed_revision s.catalog_seed_revision)) [
    | inl done ↦ rw done (Keeps-refl s)
    | inr old ↦
        rw old
          (stamped-Keeps s (all_seeds macos s) catalog_seed_revision (all_seeds-Keeps macos s u))
  ],
  ground arith,
)
