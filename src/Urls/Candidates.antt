-- ===== src/Urls/Candidates.antt =====
-- What the candidates for the listing of models are.
use linguaray.Base.{
  ◌≡◌, refl, ap, ◌∙◌, inl, inr, true, false, Option, none, some, Option-cases, List, [], ◌∷◌, ◌++◌,
  arith, Bool-cases, is_empty, any, Text, codes, same, trim,
}
use linguaray.Base.Keys.{Unique, Unique-append}
use linguaray.Urls.{
  has_api_version_suffix, endpoint, without_slashes, openai_models_url, truncate_at_v1,
  strip_suffix_ci, push_unique, push_root, push_compat, v1_models, push_stripped, explicit_url,
  compat_suffixes, candidates_of, model_discovery_candidates,
}

-- The candidates are apart, and none is empty.
abbrev pub AreApart : List Text → Type 0
AreApart out = Unique (λ t. t) out × (any is_empty out ≡ false)

any_empty-append :
    (out : List Text) (t : Text)
    → any is_empty out ≡ false
    → is_empty t ≡ false
    → any is_empty (out ++ t ∷ []) ≡ false
any_empty-append [] t h e = rw e refl
any_empty-append (x ∷ out) t h e = ground (arith, any_empty-append out t)

push_unique-AreApart :
    (out : List Text) (t : Option Text) → AreApart out → AreApart (push_unique out t)
unfolding push_unique
push_unique-AreApart out none a = a
push_unique-AreApart out (some t) (u, full) = elim (Bool-cases (is_empty t)) [
  | inl blank ↦ rw blank (u, full)
  | inr solid ↦ elim (Bool-cases (any (λ existing. same existing t) out)) [
    | inl there ↦ rw (solid, there) (u, full)
    | inr fresh ↦
        rw (solid, fresh) (Unique-append (λ x. x) out t u fresh, any_empty-append out t full solid)
  ]
]

push_root-AreApart : (out : List Text) (root : Text) → AreApart out → AreApart (push_root out root)
unfolding push_root
push_root-AreApart out root a =
    push_unique-AreApart (push_unique out (some (endpoint root (codes "/models"))))
      (v1_models (truncate_at_v1 root))
      (push_unique-AreApart out (some (endpoint root (codes "/models"))) a)

push_stripped-AreApart :
    (out : List Text) (stripped : Option Text)
    → AreApart out
    → AreApart (push_stripped out stripped)
push_stripped-AreApart out none a = a
push_stripped-AreApart out (some t) a = elim (Bool-cases (is_empty (without_slashes t))) [
  | inl blank ↦ rw blank a
  | inr solid ↦ rw solid (push_root-AreApart out (without_slashes t) a)
]

push_compat-AreApart :
    (trimmed : Text) (suffixes out : List Text)
    → AreApart out
    → AreApart (push_compat trimmed suffixes out)
unfolding push_compat
push_compat-AreApart trimmed [] out a = a
push_compat-AreApart trimmed (suffix ∷ suffixes) out a =
    push_compat-AreApart trimmed suffixes (push_stripped out (strip_suffix_ci trimmed suffix))
      (push_stripped-AreApart out (strip_suffix_ci trimmed suffix) a)

-- The list begins with a text.
abbrev pub StartsWith : Text → List Text → Type 0
StartsWith t out = (rest : List Text) × (out ≡ t ∷ rest)

push_unique-StartsWith :
    (t : Text) (out : List Text) (new : Option Text)
    → StartsWith t out
    → StartsWith t (push_unique out new)
unfolding push_unique
push_unique-StartsWith t out none h = h
push_unique-StartsWith t out (some x) (rest, h) = elim (Bool-cases (is_empty x)) [
  | inl blank ↦ (rest, ground arith)
  | inr solid ↦ elim (Bool-cases (any (λ existing. same existing x) out)) [
    | inl there ↦ (rest, ground arith)
    | inr fresh ↦ (rest ++ x ∷ [], rw (solid, fresh) (ap (λ l. l ++ x ∷ []) h))
  ]
]

push_root-StartsWith :
    (t : Text) (out : List Text) (root : Text)
    → StartsWith t out
    → StartsWith t (push_root out root)
unfolding push_root
push_root-StartsWith t out root h =
    push_unique-StartsWith t (push_unique out (some (endpoint root (codes "/models"))))
      (v1_models (truncate_at_v1 root))
      (push_unique-StartsWith t out (some (endpoint root (codes "/models"))) h)

push_stripped-StartsWith :
    (t : Text) (out : List Text) (stripped : Option Text)
    → StartsWith t out
    → StartsWith t (push_stripped out stripped)
push_stripped-StartsWith t out none h = h
push_stripped-StartsWith t out (some s) h = elim (Bool-cases (is_empty (without_slashes s))) [
  | inl blank ↦ rw blank h
  | inr solid ↦ rw solid (push_root-StartsWith t out (without_slashes s) h)
]

push_compat-StartsWith :
    (t trimmed : Text) (suffixes out : List Text)
    → StartsWith t out
    → StartsWith t (push_compat trimmed suffixes out)
unfolding push_compat
push_compat-StartsWith t trimmed [] out h = h
push_compat-StartsWith t trimmed (suffix ∷ suffixes) out h =
    push_compat-StartsWith t trimmed suffixes (push_stripped out (strip_suffix_ci trimmed suffix))
      (push_stripped-StartsWith t out (strip_suffix_ci trimmed suffix) h)

is_empty-append : (t s : Text) → is_empty s ≡ false → is_empty (t ++ s) ≡ false
is_empty-append [] s h = h
is_empty-append (x ∷ t) s h = refl

is_empty-endpoint : (root : Text) → is_empty (endpoint root (codes "/models")) ≡ false
is_empty-endpoint root = elim (Bool-cases (has_api_version_suffix root)) [
  | inl versioned ↦ rw versioned (is_empty-append root (codes "/models") refl)
  | inr plain ↦ rw plain (is_empty-append (root ++ codes "/v1") (codes "/models") refl)
]

-- The first candidate of a root is its own list of models.
push_root-first : (root : Text) → StartsWith (endpoint root (codes "/models")) (push_root [] root)
unfolding push_root
push_root-first root =
    push_unique-StartsWith (endpoint root (codes "/models"))
      (push_unique [] (some (endpoint root (codes "/models")))) (v1_models (truncate_at_v1 root))
      ([], pushed)
  where
    pushed :
        push_unique [] (some (endpoint root (codes "/models")))
        ≡ endpoint root (codes "/models") ∷ []
    pushed = unfold push_unique in rw (is_empty-endpoint root) refl

explicit_url-solid :
    (models_url : Option Text) {url : Text}
    → explicit_url models_url ≡ some url
    → is_empty url ≡ false
explicit_url-solid none h = absurd (cc h)
explicit_url-solid (some m) {url} h = elim (Bool-cases (is_empty (trim m))) [
  | inl blank ↦ absurd (ground arith)
  | inr solid ↦ ground arith
]

module _ (base_url : Text) (models_url : Option Text) where
  candidates-explicit :
      (url : Text)
      → explicit_url models_url ≡ some url
      → model_discovery_candidates base_url models_url ≡ url ∷ []
  unfolding model_discovery_candidates candidates_of push_unique
  candidates-explicit url h =
      ap (candidates_of (trim base_url)) h ∙ rw (explicit_url-solid models_url h) refl

  candidates-blank :
      explicit_url models_url ≡ none
      → is_empty (trim base_url) ≡ true
      → model_discovery_candidates base_url models_url ≡ []
  unfolding model_discovery_candidates candidates_of
  candidates-blank h blank = ap (candidates_of (trim base_url)) h ∙ rw blank refl

  candidates-root :
      explicit_url models_url ≡ none
      → is_empty (trim base_url) ≡ false
      → model_discovery_candidates base_url models_url
        ≡ push_compat
            (without_slashes (trim base_url))
            compat_suffixes
            (push_root [] (without_slashes (trim base_url)))
  unfolding model_discovery_candidates candidates_of
  candidates-root h solid = ap (candidates_of (trim base_url)) h ∙ rw solid refl

  -- Whatever the URLs are, the candidates are apart and none is empty.
  candidates-AreApart : AreApart (model_discovery_candidates base_url models_url)
  candidates-AreApart = elim (Option-cases (explicit_url models_url)) [
    | inr (url, given) ↦
        rw (candidates-explicit url given)
          ((refl, tt), rw (explicit_url-solid models_url given) refl)
    | inl absent ↦ elim (Bool-cases (is_empty (trim base_url))) [
      | inl blank ↦ rw (candidates-blank absent blank) (tt, refl)
      | inr solid ↦ rw (candidates-root absent solid) (
          push_compat-AreApart _ compat_suffixes _
            (push_root-AreApart [] (without_slashes (trim base_url)) (tt, refl)))
    ]
  ]

  candidates-StartsWith :
      explicit_url models_url ≡ none
      → is_empty (trim base_url) ≡ false
      → StartsWith (openai_models_url base_url) (model_discovery_candidates base_url models_url)
  unfolding openai_models_url
  candidates-StartsWith absent solid = rw (candidates-root absent solid) (
      push_compat-StartsWith (endpoint (without_slashes (trim base_url)) (codes "/models"))
        (without_slashes (trim base_url)) compat_suffixes
        (push_root [] (without_slashes (trim base_url)))
        (push_root-first (without_slashes (trim base_url))))

-- The candidates for one URL: the one that is given, none for a blank one, or else candidates that
-- are apart, none of them empty, and the first of them is what `openai_models_url` says.
pub model_discovery_candidates_lem :
    (base_url : Text) (models_url : Option Text)
    → AreApart (model_discovery_candidates base_url models_url)
      × ((url : Text)
          → explicit_url models_url ≡ some url
          → model_discovery_candidates base_url models_url ≡ url ∷ [])
      × (explicit_url models_url ≡ none
          → is_empty (trim base_url) ≡ true
          → model_discovery_candidates base_url models_url ≡ [])
      × (explicit_url models_url ≡ none
          → is_empty (trim base_url) ≡ false
          → StartsWith
              (openai_models_url base_url)
              (model_discovery_candidates base_url models_url))
model_discovery_candidates_lem base_url models_url = (
  candidates-AreApart base_url models_url,
  candidates-explicit base_url models_url,
  candidates-blank base_url models_url,
  candidates-StartsWith base_url models_url,
)
