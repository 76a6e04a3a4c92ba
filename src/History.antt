-- ===== src/History.antt =====
-- packages/runtime/rust/src/domain/history.rs: the data of the translation history, its file and
-- its loading; the methods of the store are in `Methods`. The clock, the system's answers and what a file holds come as arguments; the methods
-- take the store and return it beside their result.
pub mod Methods
pub mod Placing
pub mod Persisted
mod Runs
pub mod Identity
pub mod Retention
pub mod Upsert
pub mod Padded
mod Tests
use Prim.Native.Nat.{◌*◌}
use linguaray.Base.{
  ℕ, ◌-◌, Bool, true, false, not, ◌&&◌, ◌||◌, Option, none, some, List, [], ◌∷◌, ◌++◌, leb, ltb,
  ◌==◌, if◌then◌else◌, is_empty, any, find, retain, update_first, length, Text, codes, same, trim,
  le_text, contains, normalize_optional, to_u32,
}
use linguaray.Base.Sort.{sort_by}
use linguaray.Errors.{
  Error, Result, ok, err, required_field, encode_failed, read_failed, parse_failed,
  unsupported_version, still_searching,
}
use linguaray.Storage.{Attempt, Directory, Outcome, write_bytes, quarantine}
use linguaray.Ids.{next_id, id_fuel}

abbrev pub history_version : ℕ
history_version = 1

abbrev pub retention_secs : ℕ
retention_secs = 90 * 24 * 60 * 60

pub data HistoryFilter : Type 0 where
  all_entries favorites edited : HistoryFilter

pub record HistoryEntry : Type 0 where
  pub id : Text
  pub source : Text
  pub translation : Text
  pub source_language : Text
  pub target_language : Text
  pub service_id : Text
  pub service_name : Text
  pub favorite : Bool
  pub edited : Bool
  pub created_at : ℕ
  pub updated_at : ℕ

pub record HistoryEntryInput : Type 0 where
  pub id : Option Text
  pub source : Text
  pub translation : Text
  pub source_language : Text
  pub target_language : Text
  pub service_id : Text
  pub service_name : Text
  pub edited : Bool

pub record HistoryCounts : Type 0 where
  pub all : ℕ
  pub favorites : ℕ
  pub edited : ℕ

pub record HistoryFile : Type 0 where
  pub version : ℕ
  pub entries : List HistoryEntry

-- What `serde_json::from_str::<HistoryFile>` makes of the text of a file.
pub data Contents : Type 0 where
  malformed : Contents
  document : HistoryFile → Contents

pub record HistoryStore : Type 0 where
  pub file : Directory Contents
  pub entries : List HistoryEntry
  pub id_seq : ℕ

abbrev pub default_file : HistoryFile
default_file = record { version = history_version; entries = [] }

pub required : Text → Text → Result Text
required field value =
    let value' = trim value in if is_empty value' then err (required_field field) else ok value'

-- `entry.favorite || now.saturating_sub(entry.created_at) <= RETENTION_SECS`
abbrev pub is_kept : ℕ → HistoryEntry → Bool
is_kept now e = e.favorite || leb (now - e.created_at) retention_secs

unfoldable pub prune_entries : List HistoryEntry → ℕ → List HistoryEntry
prune_entries entries now = retain (is_kept now) entries

unfoldable pub persist : Attempt → HistoryStore → Result (Unit {0}) × HistoryStore
unfolding write_bytes
persist a s = if a.encoded then (o.result, record s { file = o.final }) else (err encode_failed, s)
  where
    o : Outcome (Unit {0}) Contents
    o = write_bytes a (document (record { version = history_version; entries = s.entries })) s.file

unfoldable pub prune : ℕ → Attempt → HistoryStore → Result (Unit {0}) × HistoryStore
unfolding persist prune_entries
prune now a s =
    let s' = record s { entries = prune_entries s.entries now } in
    if length s'.entries == length s.entries then (ok tt, s') else persist a s'

-- The backup's file must be readable JSON of this version; a missing file is fine.
unfoldable pub validate_backup : Bool → Option Contents → Result (Unit {0})
validate_backup readable none = ok tt
validate_backup false (some c) = err read_failed
validate_backup true (some malformed) = err parse_failed
validate_backup true (some (document f)) =
    if f.version == history_version then ok tt else err (unsupported_version f.version)

-- The first half of `load`: the file that is read, and what a damaged one leaves behind.
unfoldable pub read_file : ℕ → Bool → Bool → Directory Contents → HistoryFile × Directory Contents
unfolding quarantine
read_file now readable renamed d = elim d.destination [
  | none ↦ (default_file, d)
  | some malformed ↦
      if readable then (default_file, quarantine now renamed d) else (default_file, d)
  | some (document f) ↦
      if readable
      then if f.version == history_version then (f, d) else (default_file, quarantine now renamed d)
      else (default_file, d)
]

unfoldable pub load : ℕ → Bool → Bool → Attempt → Directory Contents → HistoryStore
unfolding read_file persist prune_entries
load now readable renamed a d =
    let (f, d') = read_file now readable renamed d in
    let s : HistoryStore = record {
      file = d';
      entries = prune_entries f.entries now;
      id_seq = 0;
    } in
    if length s.entries == length f.entries then s else (persist a s).1
