-- ===== src/Backup/Archive.antt =====
-- `stage_backup` and `allowed_entry`. The crate zip gives the entries of an archive; a path is the
-- text of a relative Unix path. The staging directory is the list of the files that were extracted.
use Prim.Native.Nat.{◌*◌}
use linguaray.Base.{
  ℕ, ◌+◌, ◌^◌, Bool, true, false, not, ◌&&◌, ◌||◌, Option, none, some, List, [], ◌∷◌, map, ltb,
  ◌==◌, if◌then◌else◌, is_empty, any, find, length, Text, codes, same, strip_prefix, ends_with,
  take, ◌-◌,
}
use linguaray.Base.Utf8.{from_utf8}
use linguaray.Errors.{
  Result, ok, err, open_failed, archive_failed, too_many_files, size_overflow, backup_too_large,
  staging_failed, unsafe_path, extract_failed, manifest_missing, manifest_invalid,
  unsupported_backup, embedded_secrets, settings_missing, unsupported_entry, duplicate_entry,
  invalid_backup, read_failed, parse_failed,
}
use linguaray.History
use linguaray.Vocabulary
use linguaray.Glossary
use linguaray.Glossary.{Loaded, unreadable}

abbrev pub max_archive_entries : ℕ
max_archive_entries = 1024

abbrev pub max_uncompressed_bytes : ℕ
max_uncompressed_bytes = 128 * 1024 * 1024

abbrev pub Bytes : Type 0
Bytes = List ℕ

pub record BackupManifest : Type 0 where
  pub format : Text
  pub version : ℕ
  pub created_at : ℕ
  pub includes_secrets : Bool

-- What `serde_json::from_str` makes of the text of each file; for the settings whether it parses.
pub record Formats : Type 0 where
  pub manifest : Text → Option BackupManifest
  pub settings : Text → Bool
  pub history : Text → History.Contents
  pub vocabulary : Text → Vocabulary.Contents
  pub glossary : Text → Loaded

-- An entry of an archive as the crate zip shows it, and whether the system lets it be extracted.
-- `size` is what the entry declares of itself, which the code tests; `content` is what is read from
-- it when it is extracted, and nothing ties the one to the other.
pub record ZipEntry : Type 0 where
  pub readable : Bool
  pub enclosed_name : Option Text
  pub is_symlink : Bool
  pub is_dir : Bool
  pub size : ℕ
  pub content : Bytes
  pub extracted : Bool

pub record StagedBackup : Type 0 where
  pub files : List (Text × Bytes)
  pub manifest : BackupManifest

abbrev slashes : Text → Text
slashes path = map (λ c. if c == b'\\' then b'/' else c) path

abbrev pub is_book_name : Text → Bool
is_book_name name =
    not (is_empty name) && not (any (λ c. c == b'/') name) && ends_with name (codes ".json")

unfoldable pub allowed_entry : Text → Bool → Bool
unfolding ends_with
allowed_entry path is_dir =
    let text = slashes path in
    if is_dir
    then same text (codes "glossary/") || same text (codes "glossary")
    else if same text (codes "manifest.json")
        || same text (codes "settings.json")
        || same text (codes "history.json")
        || same text (codes "vocabulary.json")
    then true
    else elim (strip_prefix (codes "glossary/") text) [
      | none ↦ false
      | some name ↦ is_book_name name
    ]

-- `try_fold` over the declared sizes
unfoldable pub total_size : ℕ → List ZipEntry → Result ℕ
total_size total [] = ok total
total_size total (e ∷ es) =
    let rest = total_size (total + e.size) es in
    if e.readable
    then if ltb (total + e.size) (2 ^ 64) then rest else err size_overflow
    else err archive_failed

-- The closure that extracts the entries; `paths` are those that were seen.
unfoldable pub extract : List Text → List ZipEntry → Result (List (Text × Bytes))
unfolding allowed_entry
extract paths [] = ok []
extract paths (e ∷ es) =
    if e.readable
    then elim e.enclosed_name [
      | none ↦ err unsafe_path
      | some path ↦
          let rest = extract (path ∷ paths) es in
          if e.is_symlink || not (allowed_entry path e.is_dir)
          then err (unsupported_entry path)
          else if any (λ seen. same seen path) paths
          then err (duplicate_entry path)
          else if e.extracted
          then if e.is_dir
            then rest
            else elim rest [ err x ↦ err x | ok files ↦ ok ((path, e.content) ∷ files) ]
          else err extract_failed
    ]
    else err archive_failed

abbrev pub is_file : Text → Text × Bytes → Bool
is_file path f = same f.0 path

-- `read_to_string` of a staged file: it is not there, not UTF-8, or a text.
abbrev pub read_staged : Text → List (Text × Bytes) → Option (Option Text)
read_staged path files = elim (find (is_file path) files) [
  | none ↦ none
  | some f ↦ some (from_utf8 f.1)
]

-- The books among the staged files, each with the stem of its name; a file `.json` has no
-- extension.
unfoldable pub staged_books : Formats → List (Text × Bytes) → List (Text × Loaded)
unfolding ends_with
staged_books formats [] = []
staged_books formats ((path, content) ∷ files) =
    let rest = staged_books formats files in
    elim (strip_prefix (codes "glossary/") path) [
      | none ↦ rest
      | some name ↦
          let stem = take (length name - 5) name in
          let found : Loaded = elim (from_utf8 content) [
            | none ↦ unreadable
            | some text ↦ formats.glossary text
          ] in
          if ends_with name (codes ".json") && not (is_empty stem)
          then (stem, found) ∷ rest
          else rest
    ]

-- The store's own check of its file: whether it can be read, and what it holds.
abbrev file_for {ℓ} : {A : Type ℓ} → (Text → A) → A → Option (Option Text) → Bool × Option A
file_for parse unread none = (true, none)
file_for parse unread (some none) = (false, some unread)
file_for parse unread (some (some text)) = (true, some (parse text))

unfoldable pub validate_data : Formats → List (Text × Bytes) → Result (Unit {0})
unfolding staged_books
validate_data formats files =
    let h = file_for formats.history History.malformed (read_staged (codes "history.json") files) in
    let v =
      file_for formats.vocabulary Vocabulary.malformed
        (read_staged (codes "vocabulary.json") files) in
    let settings : Result (Unit {0}) = elim (read_staged (codes "settings.json") files) [
      | none ↦ ok tt
      | some none ↦ err read_failed
      | some (some text) ↦ if formats.settings text then ok tt else err parse_failed
    ] in
    elim settings [
      | err e ↦ err e
      | ok _ ↦ elim (History.validate_backup h.0 h.1) [
        | err e ↦ err e
        | ok _ ↦ elim (Vocabulary.validate_backup v.0 v.1) [
          | err e ↦ err e
          | ok _ ↦ Glossary.validate_backup (staged_books formats files)
        ]
      ]
    ]

abbrev pub backup_format : Text
backup_format = codes "linguaray-backup"

abbrev pub backup_version : ℕ
backup_version = 1

-- What follows the extraction: the manifest, then the data.
unfoldable pub check_staged : Formats → List (Text × Bytes) → Result BackupManifest
unfolding validate_data
check_staged formats files = elim (read_staged (codes "manifest.json") files) [
  | none ↦ err manifest_missing
  | some none ↦ err manifest_missing
  | some (some text) ↦ elim (formats.manifest text) [
    | none ↦ err manifest_invalid
    | some manifest ↦
        if not (same manifest.format backup_format && manifest.version == backup_version)
        then err unsupported_backup
        else if manifest.includes_secrets
        then err embedded_secrets
        else if not (any (is_file (codes "settings.json")) files)
        then err settings_missing
        else elim (validate_data formats files) [
          | err e ↦ err (invalid_backup e)
          | ok _ ↦ ok manifest
        ]
  ]
]

-- `archive` is `none` where the file cannot be opened, and its entries are `none` where it is no
-- archive; `prepared` is whether the staging directory can be made. The second part is what the
-- staging directory holds in the end: every error removes it.
unfoldable pub stage_backup :
    Formats
    → Option (Option (List ZipEntry))
    → Bool
    → Result StagedBackup × Option (List (Text × Bytes))
unfolding total_size extract check_staged
stage_backup formats none prepared = (err open_failed, none)
stage_backup formats (some none) prepared = (err archive_failed, none)
stage_backup formats (some (some entries)) prepared =
    if ltb max_archive_entries (length entries)
    then (err too_many_files, none)
    else elim (total_size 0 entries) [
      | err e ↦ (err e, none)
      | ok total ↦
          if ltb max_uncompressed_bytes total
          then (err backup_too_large, none)
          else if prepared
          then elim (extract [] entries) [
            | err e ↦ (err e, none)
            | ok files ↦ elim (check_staged formats files) [
              | err e ↦ (err e, none)
              | ok manifest ↦ (ok (record { files = files; manifest = manifest }), some files)
            ]
          ]
          else (err staging_failed, none)
    ]
