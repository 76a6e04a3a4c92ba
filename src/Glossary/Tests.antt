-- ===== src/Glossary/Tests.antt =====
-- Runs of the matcher, and theorems on the glossary at concrete texts.
use linguaray.Base.{
  Option, none, arith, same, eq_ignore_ascii_case, normalize_optional, ascii_lower, ◌≡◌, refl, Bool,
  true, false, some, [], ◌∷◌, Text, codes, any, all, map,
}
use linguaray.Base.Sort.{sort_by}
use linguaray.Storage.{Attempt}
use linguaray.Glossary.{GlossaryEntry, GlossaryEntryInput, BookFile, GlossaryStore}
use linguaray.Glossary.Books.{delete_entry}
use linguaray.Glossary.Entries.{Cleaned, apply_to_book}
use linguaray.Glossary.Books.{upsert_entry}
use linguaray.Glossary.Terms.{WellFormed, apply_to_book-WellFormed}
use linguaray.Glossary.Matching.Cache.{MatcherCache}
use linguaray.Glossary.Matching.Cache
use linguaray.Glossary.Written.{Written, upsert_entry-Written}
use linguaray.Glossary.Matching.Runs.{searched, entry_deleted, stop, go, matcher-never_stale}
use linguaray.Glossary.Matching.{
  AhoCorasick, CompiledMatcher, compile, Hit, PatternInfo, raw_hits, chosen_hits, find_matches,
}
use linguaray.Glossary.Matching.Overlap.{Apart, accounts, chosen_hits_lem}

-- Patterns "ap" and "app", found at the same place.
abbrev info : Text → PatternInfo
info term = record {
  book_id = codes "b";
  entry_id = term;
  term = term;
  translation = codes "x";
  forbidden = [];
  whole_word = false;
}

abbrev automata : AhoCorasick
automata = record {
  builds = λ insensitive patterns. true;
  find_iter = λ insensitive patterns text. elim insensitive [
    | true ↦ (0, 0, 3) ∷ []
    | false ↦ (0, 0, 2) ∷ []
  ];
}

abbrev two_patterns : CompiledMatcher
two_patterns = record {
  sensitive = some (info (codes "ap") ∷ []);
  insensitive = some (info (codes "app") ∷ []);
}

longest : map (λ m. m.stop) (find_matches automata two_patterns (codes "apple")) ≡ 3 ∷ []
unfolding find_matches sort_by
longest = refl

chosen_hits_lem_example :
    Apart 0 (chosen_hits automata two_patterns (codes "apple"))
    × (all
          (λ g. any (accounts g) (chosen_hits automata two_patterns (codes "apple")))
          (raw_hits automata two_patterns (codes "apple"))
        ≡ true)
    × ((p : Hit → Bool)
        → all p (raw_hits automata two_patterns (codes "apple")) ≡ true
        → all p (chosen_hits automata two_patterns (codes "apple")) ≡ true)
chosen_hits_lem_example = chosen_hits_lem automata two_patterns (codes "apple")

abbrev old_entry : GlossaryEntry
old_entry = record {
  id = codes "e";
  term = codes "API";
  translation = codes "port";
  forbidden = [];
  note = none;
  case_sensitive = false;
  whole_word = true;
  hits = 0;
  created_at = 1;
  updated_at = 1;
}

abbrev terms : BookFile
terms = record {
  id = codes "b";
  name = codes "Terms";
  enabled = true;
  source_language = some (codes "en");
  target_language = none;
  created_at = 1;
  updated_at = 1;
  entries = old_entry ∷ [];
}

abbrev shelf : GlossaryStore
shelf = record {
  files = λ id. record { destination = none; staging = 0; quarantined = λ k. none };
  books = terms ∷ [];
  generation = 0;
  pending_hits = [];
  last_hit_flush = 0;
  id_seq = 0;
}

abbrev retyped : GlossaryEntryInput
retyped = record {
  id = none;
  term = codes "api";
  translation = codes "interface";
  forbidden = [];
  note = none;
  case_sensitive = false;
  whole_word = true;
}

abbrev cleaned : Cleaned
cleaned = record {
  term = codes "api";
  translation = codes "interface";
  forbidden = [];
  note = none;
}

abbrev rewritten : GlossaryEntry
rewritten = record old_entry { term = codes "api"; translation = codes "interface"; updated_at = 9 }

-- The term in another case finds the entry.
apply_to_book-WellFormed_example : WellFormed (rewritten ∷ [])
unfolding apply_to_book same eq_ignore_ascii_case normalize_optional
apply_to_book-WellFormed_example =
    apply_to_book-WellFormed 9 (λ k. 0) retyped cleaned terms 0 rewritten
      (record terms { entries = rewritten ∷ []; updated_at = 9 }) 0
      (record { ids = (refl, tt); terms = (refl, tt) }) refl

abbrev works : Attempt
works = record {
  encoded = true;
  created = true;
  staged = true;
  written = true;
  flushed = true;
  committed = true;
  dir_synced = true;
}

abbrev no_cache : MatcherCache
no_cache = record { generation = 0; entries = [] }

abbrev english : Option Text
english = some (codes "EN")

abbrev edited : GlossaryStore
edited = (delete_entry 9 works (codes "b") (codes "e") shelf).1

abbrev filled : MatcherCache
filled = (Cache.matcher automata (map ascii_lower) english none shelf no_cache).1

-- A search, then the deletion of the entry that it found.
matcher-never_stale_example :
    (Cache.matcher automata (map ascii_lower) english none edited filled).0
    ≡ compile automata english none edited.books
matcher-never_stale_example =
    matcher-never_stale automata (map ascii_lower) shelf edited filled english none (λ v h. refl)
      (go (shelf, no_cache) (shelf, filled) (edited, filled)
        (searched english none shelf no_cache refl tt)
        (go (shelf, filled) (edited, filled) (edited, filled)
          (entry_deleted 9 works (codes "b") (codes "e") shelf filled (omega arith))
          (stop (edited, filled))))
      refl tt

upsert_entry-Written_example :
    Written (codes "b") shelf (upsert_entry 9 (λ k. 0) works (codes "b") retyped shelf)
upsert_entry-Written_example = upsert_entry-Written 9 (λ k. 0) works (codes "b") retyped shelf
