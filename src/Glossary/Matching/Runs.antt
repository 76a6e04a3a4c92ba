-- ===== src/Glossary/Matching/Runs.antt =====
-- Searches and edits of the terms in any order: the cache never answers with a stale matcher.
use linguaray.Base.{ℕ, ◌<◌, ◌^◌, ◌≡◌, ◌∙◌, inl, inr, Bool, Option, List, [], length, arith, Text}
use linguaray.Storage.{Attempt}
use linguaray.Glossary.{GlossaryBookInput, GlossaryEntryInput, GlossaryStore}
use linguaray.Glossary.Books.{upsert_book, delete_book, upsert_entry, import_entries, delete_entry}
use linguaray.Glossary.Matching.{AhoCorasick, compile}
use linguaray.Glossary.Matching.Languages.{IsAscii, LowersAscii}
use linguaray.Glossary.Matching.Cache.{
  MatcherCache, matcher, IsCurrent, matcher-eq_compile, matcher-IsCurrent,
}
use linguaray.Glossary.Matching.Invalidation.{
  Fresher, HasRoom, upsert_book-Fresher, delete_book-Fresher, upsert_entry-Fresher,
  import_entries-Fresher, delete_entry-Fresher,
}

module _ (ac : AhoCorasick) (to_lowercase : Text → Text) where
  -- One call. A search names its languages in ASCII; an edit finds room in the counter.
  pub data Step : GlossaryStore × MatcherCache → GlossaryStore × MatcherCache → Type 0 where
    searched :
        (source target : Option Text) (s : GlossaryStore) (cache : MatcherCache)
        → IsAscii source
        → IsAscii target
        → Step (s, cache) (s, (matcher ac to_lowercase source target s cache).1)
    book_upserted :
        (now : ℕ) (millis : ℕ → ℕ) (a : Attempt) (input : GlossaryBookInput) (s : GlossaryStore)
        (cache : MatcherCache)
        → HasRoom s
        → Step (s, cache) ((upsert_book now millis a input s).1, cache)
    book_deleted :
        (removed : Bool) (id : Text) (s : GlossaryStore) (cache : MatcherCache)
        → HasRoom s
        → Step (s, cache) ((delete_book removed id s).1, cache)
    entry_upserted :
        (now : ℕ) (millis : ℕ → ℕ) (a : Attempt) (id : Text) (input : GlossaryEntryInput)
        (s : GlossaryStore) (cache : MatcherCache)
        → HasRoom s
        → Step (s, cache) ((upsert_entry now millis a id input s).1, cache)
    entries_imported :
        (now : ℕ) (millis : ℕ → ℕ → ℕ) (a : Attempt) (id : Text) (inputs : List GlossaryEntryInput)
        (s : GlossaryStore) (cache : MatcherCache)
        → HasRoom s
        → length inputs < 2 ^ 32
        → Step (s, cache) ((import_entries now millis a id inputs s).1, cache)
    entry_deleted :
        (now : ℕ) (a : Attempt) (id entry : Text) (s : GlossaryStore) (cache : MatcherCache)
        → HasRoom s
        → Step (s, cache) ((delete_entry now a id entry s).1, cache)

  pub data Run : GlossaryStore × MatcherCache → GlossaryStore × MatcherCache → Type 0 where
    stop : (st : GlossaryStore × MatcherCache) → Run st st
    go : (st tt' uu : GlossaryStore × MatcherCache) → Step st tt' → Run tt' uu → Run st uu

  Fresher-IsCurrent :
      (s t : GlossaryStore) (cache : MatcherCache)
      → Fresher s t
      → IsCurrent ac to_lowercase s cache
      → IsCurrent ac to_lowercase t cache
  Fresher-IsCurrent s t cache (inl (same_generation, same_books)) c = record {
    not_ahead = omega (arith, c.not_ahead);
    compiled = λ e. rw same_books (c.compiled (e ∙ same_generation));
  }
  Fresher-IsCurrent s t cache (inr later) c = record {
    not_ahead = omega (arith, c.not_ahead);
    compiled = λ e. absurd (omega (arith, c.not_ahead));
  }

  module _ (lowers : LowersAscii to_lowercase) where
    Step-IsCurrent :
        (st u : GlossaryStore × MatcherCache)
        → Step st u
        → IsCurrent ac to_lowercase st.0 st.1
        → IsCurrent ac to_lowercase u.0 u.1
    Step-IsCurrent st u (searched source target s cache h k) c =
        matcher-IsCurrent ac to_lowercase lowers source target h k s cache c
    Step-IsCurrent st u (book_upserted now millis a input s cache room) c =
        Fresher-IsCurrent s _ cache (upsert_book-Fresher now millis a input s room) c
    Step-IsCurrent st u (book_deleted removed id s cache room) c =
        Fresher-IsCurrent s _ cache (delete_book-Fresher removed id s room) c
    Step-IsCurrent st u (entry_upserted now millis a id input s cache room) c =
        Fresher-IsCurrent s _ cache (upsert_entry-Fresher now millis a id input s room) c
    Step-IsCurrent st u (entries_imported now millis a id inputs s cache room few) c =
        Fresher-IsCurrent s _ cache (import_entries-Fresher now millis a id inputs s room few) c
    Step-IsCurrent st u (entry_deleted now a id entry s cache room) c =
        Fresher-IsCurrent s _ cache (delete_entry-Fresher now a id entry s room) c

    Run-IsCurrent :
        (st u : GlossaryStore × MatcherCache)
        → Run st u
        → IsCurrent ac to_lowercase st.0 st.1
        → IsCurrent ac to_lowercase u.0 u.1
    Run-IsCurrent _ _ (stop st) c = c
    Run-IsCurrent _ _ (go st next u step rest) c =
        Run-IsCurrent next u rest (Step-IsCurrent st next step c)

  -- From a store and an empty cache of generation 0, after any sequence of searches and edits, the
  -- matcher that the cache answers with is the one that compiling the books now would give, for
  -- languages in ASCII.
  pub matcher-never_stale :
      (s t : GlossaryStore) (cache : MatcherCache) (source target : Option Text)
      → LowersAscii to_lowercase
      → Run (s, record { generation = 0; entries = [] }) (t, cache)
      → IsAscii source
      → IsAscii target
      → (matcher ac to_lowercase source target t cache).0 ≡ compile ac source target t.books
  matcher-never_stale s t cache source target lowers run h k =
      matcher-eq_compile ac to_lowercase lowers source target h k t cache
        (Run-IsCurrent lowers _ _ run (record { not_ahead = omega arith; compiled = λ _. tt }))
