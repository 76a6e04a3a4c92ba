-- ===== src/Settings/Names.antt =====
-- `generate_provider_id` of packages/runtime/rust/src/runtime/settings_api.rs: the search for an id of a
-- new provider. Its loop has no bound in the code; here it has fuel for one round more than there
-- are providers, which is enough. `to_lowercase` is the Unicode table of the standard library.
use linguaray.Base.{
  ℕ, zero, suc, ◌+◌, ◌-◌, ◌*◌, ◌/◌, ◌%◌, ◌≤◌, ◌<◌, ◌≡◌, refl, sym, ap, ◌∙◌, inl, inr, true, false,
  Option, none, some, List, [], ◌∷◌, ◌++◌, arith, codes, ltb, if◌then◌else◌, Bool-cases, is_empty,
  any, length, length-map, map, Text, same, same_iff, trim,
}
use linguaray.Base.Maps.{HashMap, contains_key}
use linguaray.Errors.{Result, ok, err, required_field, still_searching}
use linguaray.Ids.Search.{without, length-without, any-without}
use linguaray.Settings.{ProviderConfigEntry, Settings}
use mathlib.Core.List.{append_cancel_left}

-- `{suffix}`: a number in decimal
unfoldable pub digits_of : ℕ → ℕ → Text
digits_of zero n = []
digits_of (suc f) n =
    let rest = digits_of f (n / 10) in
    if ltb n 10 then (b'0' + n) ∷ [] else rest ++ (b'0' + n % 10) ∷ []

unfoldable pub decimal : ℕ → Text
unfolding digits_of
decimal n = digits_of (suc n) n

unfoldable pub candidate : Text → ℕ → Text
unfolding decimal
candidate base suffix = base ++ decimal suffix

unfoldable pub search_id : ℕ → Text → HashMap ProviderConfigEntry → ℕ → Option Text
search_id zero base providers suffix = none
search_id (suc f) base providers suffix =
    let rest = search_id f base providers (suc suffix) in
    if contains_key (candidate base suffix) providers then rest else some (candidate base suffix)

unfoldable pub generate_provider_id : (Text → Text) → Text → Settings → Result Text
generate_provider_id to_lowercase provider_type s =
    let base = to_lowercase (trim provider_type) in
    let searched = search_id (suc (length s.providers)) base s.providers 1 in
    if is_empty base
    then err (required_field (codes "provider_type"))
    else if contains_key base s.providers
    then elim searched [ some id ↦ ok id | none ↦ err still_searching ]
    else ok base

-- The value of a decimal
value_of : ℕ → Text → ℕ
value_of acc [] = acc
value_of acc (d ∷ ds) = value_of (acc * 10 + (d - b'0')) ds

value_of-append :
    (acc : ℕ) (ds : Text) (d : ℕ) → value_of acc (ds ++ d ∷ []) ≡ value_of acc ds * 10 + (d - b'0')
unfolding value_of
value_of-append acc [] d = refl
value_of-append acc (c ∷ ds) d = value_of-append (acc * 10 + (c - b'0')) ds d

value_of-digits_of : (f n : ℕ) → n < f → value_of 0 (digits_of f n) ≡ n
unfolding digits_of value_of
value_of-digits_of zero n h = elim h [ ]
value_of-digits_of (suc f) n h = elim (Bool-cases (ltb n 10)) [
  | inl small ↦ rw small (omega arith)
  | inr big ↦
      rw (big, value_of-append 0 (digits_of f (n / 10)) (b'0' + n % 10))
        (ground (arith, value_of-digits_of f (n / 10)))
]

candidate_inj : (base : Text) (m n : ℕ) → candidate base m ≡ candidate base n → m ≡ n
unfolding candidate decimal
candidate_inj base m n h =
    let e = append_cancel_left base (decimal m) (decimal n) h in
    sym (value_of-digits_of (suc m) m (omega arith))
    ∙ ap (value_of 0) e
    ∙ value_of-digits_of (suc n) n (omega arith)

-- If fewer ids are taken than the search has rounds, it finds one.
search_id_total :
    (f : ℕ) (base : Text) (providers : HashMap ProviderConfigEntry) (suffix : ℕ) (xs : List Text)
    → ((j : ℕ)
        → suffix ≤ j
        → contains_key (candidate base j) providers ≡ true
        → any (same (candidate base j)) xs ≡ true)
    → length xs < f
    → (id : Text) × (search_id f base providers suffix ≡ some id)
unfolding search_id
search_id_total zero base providers suffix xs h l = elim l [ ]
search_id_total (suc f) base providers suffix xs h l =
    elim (Bool-cases (contains_key (candidate base suffix) providers)) [
      | inr new ↦ (candidate base suffix, rw new)
      | inl old ↦
          let first = candidate base suffix in
          let there = h suffix (omega arith) old in
          rw old (
            search_id_total f base providers (suc suffix) (without first xs)
              (λ j later t.
                rw
                  (any-without first (candidate base j) xs
                    (λ e. absurd (omega (arith, candidate_inj base j suffix e))))
                  (h j (omega arith) t))
              (omega (arith, length-without first xs there)))
    ]

search_id-free :
    (f : ℕ) (base : Text) (providers : HashMap ProviderConfigEntry) (suffix : ℕ) (id : Text)
    → search_id f base providers suffix ≡ some id
    → contains_key id providers ≡ false
unfolding search_id
search_id-free zero base providers suffix id h = cc
search_id-free (suc f) base providers suffix id h =
    elim (Bool-cases (contains_key (candidate base suffix) providers)) [
      | inl old ↦ search_id-free f base providers (suc suffix) id (rw old at h)
      | inr new ↦ ground arith
    ]

taken-keys :
    (id : Text) (providers : HashMap ProviderConfigEntry)
    → contains_key id providers ≡ any (same id) (map (λ e. e.0) providers)
taken-keys id [] = refl
taken-keys id ((key, p) ∷ providers) =
    ground (arith, same_iff id key, same_iff key id, taken-keys id providers)

-- For a type that is not blank the search ends with an id that no provider has.
pub generate_provider_id-finds_free :
    (to_lowercase : Text → Text) (provider_type : Text) (s : Settings)
    → is_empty (to_lowercase (trim provider_type)) ≡ false
    → (id : Text) × (generate_provider_id to_lowercase provider_type s ≡ ok id)
      × (contains_key id s.providers ≡ false)
unfolding generate_provider_id
generate_provider_id-finds_free to_lowercase provider_type s h =
    let base = to_lowercase (trim provider_type) in
    let (id, found) =
      search_id_total (suc (length s.providers)) base s.providers 1 (map (λ e. e.0) s.providers)
        (λ j later t. sym (taken-keys (candidate base j) s.providers) ∙ t)
        (omega (arith, length-map (λ (e : Text × ProviderConfigEntry). e.0) s.providers)) in
    elim (Bool-cases (contains_key base s.providers)) [
      | inr new ↦ (base, rw (h, new) refl, new)
      | inl old ↦ (
        id,
        rw (h, old, found) refl,
        search_id-free (suc (length s.providers)) base s.providers 1 id found,
      )
    ]
