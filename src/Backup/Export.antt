-- ===== src/Backup/Export.antt =====
-- `export_backup` and `write_file`: the entries that are written into the archive.
use linguaray.Base.{
  ℕ, ◌+◌, ◌-◌, ◌%◌, ◌^◌, Bool, true, false, not, ◌&&◌, Option, none, some, List, [], ◌∷◌, ◌++◌, map,
  if◌then◌else◌, is_empty, retain, length, take, Text, codes, le_text, ends_with,
}
use linguaray.Base.Sort.{sort_by}
use linguaray.Errors.{Result, ok, err, encode_failed, not_regular, archive_write_failed}
use linguaray.Storage.{Attempt, Directory, Outcome, write_atomic}
use linguaray.Backup.Archive.{Bytes, BackupManifest, backup_format, backup_version}

-- A file of the data directory; `regular` is that it is no symbolic link.
pub record DataFile : Type 0 where
  pub regular : Bool
  pub content : Bytes

-- The files that `is_file` finds, and the listing of the folder of the books if there is one.
pub record DataDir : Type 0 where
  pub settings : Option DataFile
  pub history : Option DataFile
  pub vocabulary : Option DataFile
  pub glossary : List (Text × DataFile)

pub record ArchiveEntry : Type 0 where
  pub name : Text
  pub is_dir : Bool
  pub content : Bytes

-- `extension() == Some("json")`
abbrev pub is_json_name : Text → Bool
is_json_name name = ends_with name (codes ".json") && not (is_empty (take (length name - 5) name))

abbrev pub present : Text → Option DataFile → List (Text × DataFile)
present name none = []
present name (some file) = (name, file) ∷ []

-- The calls of `write_file` in a row; `writes` is whether the archive takes the entry.
unfoldable pub write_files : (Text → Bool) → List (Text × DataFile) → Result (List ArchiveEntry)
write_files writes [] = ok []
write_files writes ((name, file) ∷ files) =
    let rest = write_files writes files in
    if not file.regular
    then err (not_regular name)
    else if writes name
    then elim rest [
      | err e ↦ err e
      | ok entries ↦ ok (record { name = name; is_dir = false; content = file.content } ∷ entries)
    ]
    else err (archive_write_failed name)

abbrev pub le_name : Text × DataFile → Text × DataFile → Bool
le_name a b = le_text a.0 b.0

abbrev pub in_glossary : Text × DataFile → Text × DataFile
in_glossary f = (codes "glossary/" ++ f.0, f.1)

-- The books of the listing in the order of their paths, under their names in the archive.
unfoldable pub book_files : DataDir → List (Text × DataFile)
unfolding ends_with sort_by
book_files d = map in_glossary (sort_by le_name (retain (λ f. is_json_name f.0) d.glossary))

abbrev pub store_files : DataDir → List (Text × DataFile)
store_files d =
    present (codes "settings.json") d.settings
    ++ present (codes "history.json") d.history
    ++ present (codes "vocabulary.json") d.vocabulary

abbrev pub manifest_entry : Bytes → ArchiveEntry
manifest_entry content = record { name = codes "manifest.json"; is_dir = false; content = content }

abbrev pub glossary_entry : ArchiveEntry
glossary_entry = record { name = codes "glossary/"; is_dir = true; content = [] }

-- The entries in the order in which they are written, and the number of files.
unfoldable pub archive_entries : (Text → Bool) → Bytes → DataDir → Result (List ArchiveEntry × ℕ)
unfolding write_files book_files
archive_entries writes manifest d =
    if writes (codes "manifest.json")
    then elim (write_files writes (store_files d)) [
      | err e ↦ err e
      | ok stores ↦
          if writes (codes "glossary/")
          then elim (write_files writes (book_files d)) [
            | err e ↦ err e
            | ok books ↦ ok (
              manifest_entry manifest ∷ (stores ++ glossary_entry ∷ books),
              (1 + length stores + length books) % 2 ^ 32,
            )
          ]
          else err (archive_write_failed (codes "glossary/"))
    ]
    else err (archive_write_failed (codes "manifest.json"))

abbrev pub new_manifest : ℕ → BackupManifest
new_manifest created_at = record {
  format = backup_format;
  version = backup_version;
  created_at = created_at;
  includes_secrets = false;
}

-- `encode` is `serde_json::to_vec_pretty`. The destination is replaced by the finished archive; the
-- content of the staging file is of no account when the closure fails.
unfoldable pub export_backup :
    (BackupManifest → Option Bytes)
    → ℕ
    → (Text → Bool)
    → Attempt
    → DataDir
    → Directory (List ArchiveEntry)
    → Outcome (ℕ × ℕ) (List ArchiveEntry)
unfolding archive_entries write_atomic
export_backup encode now writes a d destination = elim (encode (new_manifest now)) [
  | none ↦ write_atomic a (err encode_failed) [] destination
  | some manifest ↦ elim (archive_entries writes manifest d) [
    | err e ↦ write_atomic a (err e) [] destination
    | ok written ↦ write_atomic a (ok (now, written.1)) written.0 destination
  ]
]
