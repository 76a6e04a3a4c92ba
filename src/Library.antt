-- ===== src/Library.antt =====
-- packages/runtime/rust/src/runtime/library_api.rs: the methods of the runtime over the history, the
-- vocabulary and the glossary. A change that succeeds is announced to the subscribers.
use linguaray.Base.{ℕ, Bool, Option, none, some, List, [], ◌∷◌, ◌++◌, Text, is_empty, if◌then◌else◌}
use linguaray.Errors.{Result, ok, err, no_such_book}
use linguaray.Storage.{Attempt}
use linguaray.Settings.State.{SettingsChange, glossary, history, vocabulary}
use linguaray.History.{HistoryStore, HistoryFilter, HistoryEntry, HistoryEntryInput, HistoryCounts}
use linguaray.History.Methods
use linguaray.Vocabulary
use linguaray.Vocabulary.{VocabularyStore, VocabularyFilter, VocabularyEntry, VocabularyEntryInput}
use linguaray.Glossary.{
  GlossaryStore, GlossaryBook, GlossaryBookInput, GlossaryEntry, GlossaryEntryInput,
  GlossaryImportReport, GlossaryMatch,
}
use linguaray.Glossary.Books
use linguaray.Glossary.Entries
use linguaray.Glossary.Hits
use linguaray.Glossary.Matching.{AhoCorasick}
use linguaray.Glossary.Matching.Cache.{MatcherCache, match_text}
use linguaray.Glossary.Compliance.{GlossaryComplianceIssue, check_compliance}
use linguaray.Exchange.{Csv, encode_csv, decode_csv}
use linguaray.Exchange.Tbx.{QuickXml, encode_tbx, decode_tbx}

-- The stores of the runtime, and the events that were sent
pub record Stores : Type 0 where
  pub glossary_store : GlossaryStore
  pub cache : MatcherCache
  pub history_store : HistoryStore
  pub vocabulary_store : VocabularyStore
  pub events : List SettingsChange

-- `let _ = events.send(change)`, after an update that returned `Ok`
abbrev pub announce :
    {T : Type 0} → SettingsChange → Result T → List SettingsChange → List SettingsChange
announce change (ok v) events = events ++ change ∷ []
announce change (err e) events = events

-- The three `commit`s: the update works on the store itself.
unfoldable pub commit_glossary :
    {T : Type 0} → (GlossaryStore → Result T × GlossaryStore) → Stores → Result T × Stores
commit_glossary update s =
    let (r, store) = update s.glossary_store in
    (r, record s { glossary_store = store; events = announce glossary r s.events })

unfoldable pub commit_history :
    {T : Type 0} → (HistoryStore → Result T × HistoryStore) → Stores → Result T × Stores
commit_history update s =
    let (r, store) = update s.history_store in
    (r, record s { history_store = store; events = announce history r s.events })

unfoldable pub commit_vocabulary :
    {T : Type 0} → (VocabularyStore → Result T × VocabularyStore) → Stores → Result T × Stores
commit_vocabulary update s =
    let (r, store) = update s.vocabulary_store in
    (r, record s { vocabulary_store = store; events = announce vocabulary r s.events })

-- A store that is changed without an event: listing the history drops what has expired.
abbrev pub with_history :
    {T : Type 0} → (HistoryStore → Result T × HistoryStore) → Stores → Result T × Stores
with_history f s = let (r, store) = f s.history_store in (r, record s { history_store = store })

-- The names of the methods begin with the part of the runtime that they belong to.

unfoldable pub history_list_entries :
    (Text → Text)
    → ℕ
    → Attempt
    → HistoryFilter
    → Option Text
    → Stores
    → Result (List HistoryEntry) × Stores
history_list_entries to_lowercase now a filter query =
    with_history (Methods.list_entries to_lowercase now a filter query)

unfoldable pub history_counts : ℕ → Attempt → Stores → Result HistoryCounts × Stores
history_counts now a = with_history (Methods.counts now a)

unfoldable pub history_upsert_entry :
    ℕ → (ℕ → ℕ) → Attempt → HistoryEntryInput → Stores → Result HistoryEntry × Stores
history_upsert_entry now millis a input = commit_history (Methods.upsert_entry now millis a input)

unfoldable pub history_set_favorite :
    ℕ → ℕ → Attempt → Text → Bool → Stores → Result (Option HistoryEntry) × Stores
history_set_favorite updated now a id favorite =
    commit_history (Methods.set_favorite updated now a id favorite)

unfoldable pub history_delete_entries : Attempt → List Text → Stores → Result ℕ × Stores
history_delete_entries a ids = commit_history (Methods.delete_entries a ids)

unfoldable pub history_clear : Attempt → Stores → Result ℕ × Stores
history_clear a = commit_history (Methods.clear a)

unfoldable pub vocabulary_list_entries :
    (Text → Text) → VocabularyFilter → Option Text → Stores → List VocabularyEntry
vocabulary_list_entries to_lowercase filter query s =
    Vocabulary.list_entries to_lowercase filter query s.vocabulary_store

unfoldable pub vocabulary_upsert_entry :
    ℕ → (ℕ → ℕ) → Attempt → VocabularyEntryInput → Stores → Result VocabularyEntry × Stores
vocabulary_upsert_entry now millis a input =
    commit_vocabulary (Vocabulary.upsert_entry now millis a input)

unfoldable pub vocabulary_set_favorite :
    ℕ → Attempt → Text → Bool → Stores → Result (Option VocabularyEntry) × Stores
vocabulary_set_favorite now a id favorite =
    commit_vocabulary (Vocabulary.set_favorite now a id favorite)

unfoldable pub vocabulary_set_note :
    ℕ → Attempt → Text → Option Text → Stores → Result (Option VocabularyEntry) × Stores
vocabulary_set_note now a id note = commit_vocabulary (Vocabulary.set_note now a id note)

unfoldable pub vocabulary_delete_entries : Attempt → List Text → Stores → Result ℕ × Stores
vocabulary_delete_entries a ids = commit_vocabulary (Vocabulary.delete_entries a ids)

unfoldable pub glossary_list_books : Stores → List GlossaryBook
glossary_list_books s = Books.list_books s.glossary_store

unfoldable pub glossary_get_book : Text → Stores → Option GlossaryBook
glossary_get_book id s = Books.get_book id s.glossary_store

unfoldable pub glossary_list_entries :
    (Text → Text) → Text → Option Text → ℕ → ℕ → Stores → Result (List GlossaryEntry)
glossary_list_entries to_lowercase id query offset limit s =
    Entries.list_entries to_lowercase id query offset limit s.glossary_store

unfoldable pub glossary_count_entries : (Text → Text) → Text → Option Text → Stores → Result ℕ
glossary_count_entries to_lowercase id query s =
    Entries.count_entries to_lowercase id query s.glossary_store

unfoldable pub glossary_upsert_book :
    ℕ → (ℕ → ℕ) → Attempt → GlossaryBookInput → Stores → Result GlossaryBook × Stores
glossary_upsert_book now millis a input = commit_glossary (Books.upsert_book now millis a input)

unfoldable pub glossary_delete_book : Bool → Text → Stores → Result Bool × Stores
glossary_delete_book removed id = commit_glossary (Books.delete_book removed id)

unfoldable pub glossary_upsert_entry :
    ℕ → (ℕ → ℕ) → Attempt → Text → GlossaryEntryInput → Stores → Result GlossaryEntry × Stores
glossary_upsert_entry now millis a id input =
    commit_glossary (Books.upsert_entry now millis a id input)

unfoldable pub glossary_delete_entry : ℕ → Attempt → Text → Text → Stores → Result Bool × Stores
glossary_delete_entry now a id entry = commit_glossary (Books.delete_entry now a id entry)

pub data GlossaryExchangeFormat : Type 0 where
  csv_format tbx_format : GlossaryExchangeFormat

module _ (csv : Csv) (xml : QuickXml) where
  -- `encode` and `decode` of domain/glossary_exchange.rs
  unfoldable pub encode : GlossaryBook → List GlossaryEntry → GlossaryExchangeFormat → Result Text
  encode book entries csv_format = encode_csv csv entries
  encode book entries tbx_format = ok (encode_tbx xml book entries)

  unfoldable pub decode :
      Text → GlossaryBook → GlossaryExchangeFormat → Result (List GlossaryEntryInput)
  decode content book csv_format = decode_csv csv content
  decode content book tbx_format = decode_tbx xml book content

  -- The whole book: no query, no offset, no limit.
  abbrev pub encode_all :
      GlossaryBook → GlossaryExchangeFormat → Result (List GlossaryEntry) → Result Text
  encode_all book format (ok entries) = encode book entries format
  encode_all book format (err e) = err e

  unfoldable pub export_entries :
      (Text → Text) → Text → GlossaryExchangeFormat → Stores → Result Text
  export_entries to_lowercase id format s = elim (Books.get_book id s.glossary_store) [
    | none ↦ err (no_such_book id)
    | some book ↦
        encode_all book format (Entries.list_entries to_lowercase id none 0 0 s.glossary_store)
  ]

  abbrev pub import_decoded :
      ℕ
      → (ℕ → ℕ → ℕ)
      → Attempt
      → Text
      → Result (List GlossaryEntryInput)
      → Stores
      → Result GlossaryImportReport × Stores
  import_decoded now millis a id (ok inputs) s =
      commit_glossary (Books.import_entries now millis a id inputs) s
  import_decoded now millis a id (err e) s = (err e, s)

  unfoldable pub import_entries :
      ℕ
      → (ℕ → ℕ → ℕ)
      → Attempt
      → Text
      → Text
      → GlossaryExchangeFormat
      → Stores
      → Result GlossaryImportReport × Stores
  import_entries now millis a id content format s = elim (Books.get_book id s.glossary_store) [
    | none ↦ (err (no_such_book id), s)
    | some book ↦ import_decoded now millis a id (decode content book format) s
  ]

module _ (ac : AhoCorasick) (to_lowercase : Text → Text) where
  unfoldable pub glossary_matches :
      Text → Option Text → Option Text → Stores → List GlossaryMatch × Stores
  glossary_matches text source target s =
      let (hits, cache) = match_text ac to_lowercase text source target s.glossary_store s.cache in
      (hits, record s { cache = cache })

  unfoldable pub glossary_match_text :
      Text → Option Text → Option Text → Stores → List GlossaryMatch × Stores
  glossary_match_text text source target s = glossary_matches text source target s

  unfoldable pub glossary_check :
      Text → Text → Option Text → Option Text → Stores → List GlossaryComplianceIssue × Stores
  glossary_check source translated source_language target_language s =
      let (hits, s') = glossary_matches source source_language target_language s in
      (check_compliance to_lowercase hits translated, s')

-- Hits are counted and flushed without an event.
unfoldable pub record_glossary_hits : ℕ → (Text → Attempt) → List GlossaryMatch → Stores → Stores
record_glossary_hits now a hits s =
    if is_empty hits
    then s
    else record s { glossary_store = Hits.record_hits now a hits s.glossary_store }

unfoldable pub glossary_flush_hits : ℕ → (Text → Attempt) → Stores → Result (Unit {0}) × Stores
glossary_flush_hits now a s =
    let (r, store) = Hits.flush_hits now a s.glossary_store in
    (r, record s { glossary_store = store })
