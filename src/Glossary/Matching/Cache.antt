-- ===== src/Glossary/Matching/Cache.antt =====
-- The cache of compiled matchers: `matcher` of packages/runtime/rust/src/domain/glossary.rs and
-- `MatcherCache`, `MatcherKey` of glossary/matcher.rs. A poisoned lock holds the same cache.
use linguaray.Base.{
  ℕ, ◌≤◌, ◌≡◌, refl, sym, ap, ◌∙◌, inl, inr, Bool, true, false, ◌&&◌, Option, none, some, List, [],
  ◌∷◌, arith, ◌==◌, if◌then◌else◌, Bool-cases, Option-cases, is_empty, Text, same, same_iff, trim,
}
use linguaray.Glossary.{BookFile, GlossaryStore, GlossaryMatch}
use linguaray.Glossary.Matching.{AhoCorasick, CompiledMatcher, compile, find_matches}
use linguaray.Glossary.Matching.Languages.{normalize_language, IsAscii, LowersAscii, compile-key}

pub record MatcherKey : Type 0 where
  pub source : Option Text
  pub target : Option Text

pub record MatcherCache : Type 0 where
  pub generation : ℕ
  pub entries : List (MatcherKey × CompiledMatcher)

abbrev pub same_option : Option Text → Option Text → Bool
same_option none none = true
same_option (some a) (some b) = same a b
same_option _ _ = false

same_option_iff : (a b : Option Text) → same_option a b ≡ true → a ≡ b
same_option_iff none none h = refl
same_option_iff (some a) (some b) h = ap some ((same_iff a b).0 h)
same_option_iff none (some b) h = cc
same_option_iff (some a) none h = cc

abbrev pub same_key : MatcherKey → MatcherKey → Bool
same_key k key = same_option k.source key.source && same_option k.target key.target

some-eq : {m n : CompiledMatcher} → some m ≡ some n → m ≡ n
some-eq h = cc

same_key_iff : (k key : MatcherKey) → same_key k key ≡ true → k ≡ key
same_key_iff k key h =
    let sources = same_option_iff k.source key.source (ground arith) in
    let targets = same_option_iff k.target key.target (ground arith) in
    ap (λ x. record { source = x; target = k.target }) sources
    ∙ ap (λ x. record { source = key.source; target = x }) targets

-- `HashMap::get` over the derived equality of keys.
unfoldable pub cached : MatcherKey → List (MatcherKey × CompiledMatcher) → Option CompiledMatcher
cached key [] = none
cached key ((k, m) ∷ rest) = if same_key k key then some m else cached key rest

module _ (ac : AhoCorasick) (to_lowercase : Text → Text) where
  abbrev pub make_key : Option Text → Option Text → MatcherKey
  make_key source target = record {
    source = normalize_language to_lowercase source;
    target = normalize_language to_lowercase target;
  }

  -- A cache of another generation is emptied.
  abbrev pub refresh : GlossaryStore → MatcherCache → MatcherCache
  refresh s cache =
      if cache.generation == s.generation
      then cache
      else record { generation = s.generation; entries = [] }

  unfoldable pub matcher :
      Option Text → Option Text → GlossaryStore → MatcherCache → CompiledMatcher × MatcherCache
  unfolding cached
  matcher source target s cache =
      let fresh = refresh s cache in
      let key = make_key source target in
      let m = compile ac source target s.books in
      elim (cached key fresh.entries) [
        | some m' ↦ (m', fresh)
        | none ↦ (m, record fresh { entries = (key, m) ∷ fresh.entries })
      ]

  unfoldable pub match_text :
      Text
      → Option Text
      → Option Text
      → GlossaryStore
      → MatcherCache
      → List GlossaryMatch × MatcherCache
  unfolding matcher
  match_text text source target s cache =
      let (m, cache') = matcher source target s cache in
      if is_empty (trim text) then ([], cache) else (find_matches ac m text, cache')

  -- Every matcher that the cache holds was compiled from these books, for requests in ASCII.
  abbrev pub Compiled : List BookFile → List (MatcherKey × CompiledMatcher) → Type 0
  Compiled books [] = Unit
  Compiled books ((k, m) ∷ rest) =
      ((source : Option Text) × (target : Option Text) × (IsAscii source × IsAscii target)
        × (k ≡ make_key source target)
        × (m ≡ compile ac source target books))
      × Compiled books rest

  -- A cache of the store's own generation holds what would be compiled now.
  pub record IsCurrent (s : GlossaryStore) (cache : MatcherCache) : Type 0 where
    pub not_ahead : cache.generation ≤ s.generation
    pub compiled : cache.generation ≡ s.generation → Compiled s.books cache.entries

  module _ (lowers : LowersAscii to_lowercase) (source target : Option Text)
      (ascii_source : IsAscii source) (ascii_target : IsAscii target) where
    cached-Compiled :
        (books : List BookFile) (entries : List (MatcherKey × CompiledMatcher))
        {m : CompiledMatcher}
        → Compiled books entries
        → cached (make_key source target) entries ≡ some m
        → m ≡ compile ac source target books
    unfolding cached
    cached-Compiled books [] c h = cc
    cached-Compiled books ((k, n) ∷ rest) {m} ((r, t, ascii, key, made), c) h =
        elim (Bool-cases (same_key k (make_key source target))) [
          | inl e ↦ found (same_key_iff k (make_key source target) e) (rw (e, cached) at h)
          | inr e ↦ cached-Compiled books rest c (rw (e, cached) at h)
        ]
      where
        found : k ≡ make_key source target → some n ≡ some m → m ≡ compile ac source target books
        found same_keys h' =
            sym (some-eq h')
            ∙ made
            ∙ compile-key to_lowercase lowers
                (record {
                  ascii = ascii.0;
                  ascii' = ascii_source;
                  keys = ap (λ k. k.source) (sym key ∙ same_keys);
                })
                (record {
                  ascii = ascii.1;
                  ascii' = ascii_target;
                  keys = ap (λ k. k.target) (sym key ∙ same_keys);
                })
                ac books

    refresh-IsCurrent :
        (s : GlossaryStore) (cache : MatcherCache)
        → IsCurrent s cache
        → Compiled s.books (refresh s cache).entries
    refresh-IsCurrent s cache c = elim (Bool-cases (cache.generation == s.generation)) [
      | inl e ↦ rw e (c.compiled (ground arith))
      | inr n ↦ rw n tt
    ]

    -- From a cache that is current for the store, `matcher` answers what compiling now would give.
    pub matcher-eq_compile :
        (s : GlossaryStore) (cache : MatcherCache)
        → IsCurrent s cache
        → (matcher source target s cache).0 ≡ compile ac source target s.books
    unfolding matcher
    matcher-eq_compile s cache c =
        let fresh = refresh s cache in
        elim (Option-cases (cached (make_key source target) fresh.entries)) [
          | inl n ↦ rw (n, matcher) refl
          | inr (m, e) ↦
              rw (e, matcher)
                (cached-Compiled s.books fresh.entries (refresh-IsCurrent s cache c) e)
        ]

    -- What `matcher` leaves in the cache is current again.
    pub matcher-IsCurrent :
        (s : GlossaryStore) (cache : MatcherCache)
        → IsCurrent s cache
        → IsCurrent s (matcher source target s cache).1
    unfolding matcher
    matcher-IsCurrent s cache c =
        let fresh = refresh s cache in
        let old : Compiled s.books fresh.entries = refresh-IsCurrent s cache c in
        let now : fresh.generation ≡ s.generation = ground arith in
        elim (Option-cases (cached (make_key source target) fresh.entries)) [
          | inl n ↦
              rw (n, matcher)
                (record {
                  not_ahead = omega arith;
                  compiled = λ _. ((source, target, (ascii_source, ascii_target), refl, refl), old);
                })
          | inr (m, e) ↦ rw (e, matcher) (record { not_ahead = omega arith; compiled = λ _. old })
        ]
