-- ===== src/Lib.antt =====
-- LinguaRay: a model of the runtime's local stores, with the theorems that make them correct.
--
-- The runtime (packages/runtime/rust) keeps a translator's personal data on this machine. Its
-- stores hold their data in memory and write it to JSON files through one routine for file
-- commits; the text of a translation goes through the glossary before and after the engine
-- (crates/engine) is called. Backups carry the files of the stores away and back, the answers of
-- LLM services come as streams, and other programs reach the runtime through a local HTTP server.
--
--   Base       shared names; Rust's strings, searches and sorts over lists; lists with ids
--   Errors     the error messages, and `Result<T, String>`
--   Storage    packages/runtime/rust/src/storage.rs: `write_atomic`, `write_bytes`
--   Ids        `next_id` of history.rs, glossary.rs and vocabulary.rs
--   History    packages/runtime/rust/src/domain/history.rs: `HistoryStore`, its methods, its file
--   Glossary   packages/runtime/rust/src/domain/glossary.rs and its folder glossary/: the books
--              and entries (`Books`, `Entries`, `Hits`), the matcher (`Matching`, from matcher.rs)
--              with its cache (`Matching.Cache`), and the report on a translation (`Compliance`,
--              from compliance.rs)
--   Vocabulary packages/runtime/rust/src/domain/vocabulary.rs: `VocabularyStore`
--   Network    crates/engine/src/common/transport.rs: the proxy and the client that is built for it
--   Engine     crates/engine/src/engine.rs: the types of providers, and the registry of providers
--   Settings   packages/runtime/rust/src/domain/settings.rs: the settings and their defaults; their
--              form in the engine and in the file (`Mapping`, from settings/engine_mapping.rs); the
--              engine for them (`Building`, from domain/engine.rs); loading, saving and the
--              transaction `commit_settings` (`State`, from settings/persistence.rs and
--              runtime/settings_api.rs); the calls that change them (`Operations`) and the names of
--              new providers (`Names`), and the listing of providers and services (`Listing`), from
--              runtime/settings_api.rs, runtime/support.rs and runtime/translation_support.rs; the
--              seeding of new settings (`Seed`, from settings/seed.rs and
--              crates/engine/src/catalog/seed.rs)
--   Exchange   packages/runtime/rust/src/domain/glossary_exchange.rs: CSV, and TBX (`Tbx`)
--   Library    packages/runtime/rust/src/runtime/library_api.rs: the calls on the three stores, with
--              their events, and the export and import of a glossary
--   Services   packages/runtime/rust/src/domain/settings/service_order.rs
--   Targets    crates/core/src/model/language.rs: `TranslationTarget::filter_active`
--   Stream     crates/engine/src/provider/llm/streaming.rs: `Decoder`, and the task that sends the
--              chunks of a response (`Receiving`)
--   Urls       crates/engine/src/catalog/urls.rs: URLs, candidates for the listing of models, and the
--              redaction of secrets (`Redaction`)
--   Backup     packages/runtime/rust/src/backup.rs: the export (`Export`), the staging of an archive
--              (`Archive`), the installation with its rollback (`Install`), and the restore of the
--              live state, from runtime/backup_api.rs (`Restoring`)
--   Api        packages/runtime/rust/src/api_server.rs and crates/api-core: reading a request
--              (`Reading`), its checks (`Requests`), its route (`Routes`, `Server`), and the calls of
--              the services (`Services`, from runtime.rs)
--
-- How the code is rendered. A `struct` is a record and an `enum` a data type; a method with
-- `&mut self` takes the store and returns it beside its result, errors included, so that what was
-- changed before an error stays changed. Error texts are the constructors of `Error`. A string is
-- the list of its Unicode scalar values; byte offsets are counted by the lengths of UTF-8.
-- Unsigned integers are natural numbers, with `% 2 ^ 64`, `% 2 ^ 32`, saturation and truncated
-- subtraction written where the code has them. Clocks and the answers of the operating system are
-- arguments (`now`, `millis`, `Attempt`). A file is the document that its JSON encodes, or text
-- that does not decode. `BTreeMap` is a list in the order of its keys, `HashMap` an association
-- list (`Base.Maps`), whose order stands for that of the iteration.
--
-- Bounds. The search for a free id is a loop without a bound in the code; here it has fuel for
-- 4096 rounds, the number of different counters in an id. `still_searching` is the model's answer
-- when the fuel is used up; it does not occur in a store of fewer than 4096 ids. The loops over a
-- text in `Urls` and `Base.Lossy` have its length as fuel: every round takes a character away.
-- The search for the name of a new provider has one round more than there are providers, which is
-- enough, since every round tries another name.
--
-- Parameters. `to_lowercase` is the Unicode table of the standard library. `AhoCorasick` is the
-- crate of that name: whether an automaton can be built, and what `find_iter` yields. `SerdeJson`
-- is the parser of serde_json and the readings of a `Value` that the decoder makes. `Formats` and
-- `Runtime` hold the parsers of the files and of the bodies of requests, and the services. The crate
-- zip is the list of the entries of an archive; two paths that are equal as paths are equal texts. The
-- moves of a backup (`Moves`), the reads of a socket (`Read`) and whether a receiver is still there
-- are answers of the system. The clock is taken to be after 1970. `Reqwest` says whether a client
-- can be built and how a URL is taken apart; `Csv` and `QuickXml` are the crates csv and quick_xml;
-- the construction of one provider from its configuration, and what a provider can do
-- (`Capabilities`), are parameters; the patches of the settings, which a macro generates, are
-- functions.
--
-- Not modelled: the remote services and the bindings of the operating system (HTTP, JSON bodies,
-- keychain, OCR), tables of constants (the catalog's presets), the Flutter application; of the
-- settings, the listing of models and the test of a provider; of the facade, the calls of the
-- services of translation and of the language models; of the server, its listener, its thread and
-- the text of its pages; of a directory, the failure to list it.
pub mod Base
pub mod Errors
pub mod Ids
pub mod History
pub mod Glossary
pub mod Vocabulary
pub mod Storage
pub mod Services
pub mod Targets
pub mod Stream
pub mod Urls
pub mod Backup
pub mod Api
pub mod Network
pub mod Engine
pub mod Settings
pub mod Exchange
pub mod Library
