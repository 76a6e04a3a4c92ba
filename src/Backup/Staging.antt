-- ===== src/Backup/Staging.antt =====
-- Which archives `stage_backup` can take, and what it leaves behind.
use linguaray.Base.{
  ◌⊎◌, ◌++◌, map, codes, ◌==◌, ℕ, ◌+◌, ◌≤◌, ◌≡◌, Bool, true, false, Option, none, some, List, [],
  ◌∷◌, if◌then◌else◌, any, length, Text, same,
}
use linguaray.Errors.{Result, ok, err}
use linguaray.Backup.Archive.{
  Bytes, ZipEntry, StagedBackup, max_archive_entries, max_uncompressed_bytes,
}

-- The declared sizes together.
abbrev pub sizes : List ZipEntry → ℕ
sizes [] = 0
sizes (e ∷ es) = e.size + sizes es

-- A backslash counts as a slash.
abbrev pub plain_slashes : Text → Text
plain_slashes path = map (λ c. if c == b'\\' then b'/' else c) path

-- What a file may be called: one of four names, or a name with the ending of JSON in the folder of
-- the glossary. A folder is that one.
abbrev pub Permitted : Text → Bool → Type 0
Permitted path true =
    (plain_slashes path ≡ codes "glossary/") ⊎ (plain_slashes path ≡ codes "glossary")
Permitted path false =
    (plain_slashes path ≡ codes "manifest.json")
    ⊎ (plain_slashes path ≡ codes "settings.json")
    ⊎ (plain_slashes path ≡ codes "history.json")
    ⊎ (plain_slashes path ≡ codes "vocabulary.json")
    ⊎ ((stem : Text) × (plain_slashes path ≡ codes "glossary/" ++ stem ++ codes ".json")
        × (any (λ c. c == b'/') stem ≡ false))

-- Every entry can be read and extracted, lies under a permitted name, and no name comes twice.
abbrev pub Extractable : List Text → List ZipEntry → Type 0
Extractable paths [] = Unit
Extractable paths (e ∷ es) =
    (path : Text) × (e.readable ≡ true)
    × (e.enclosed_name ≡ some path)
    × (e.is_symlink ≡ false)
    × Permitted path e.is_dir
    × (any (λ seen. same seen path) paths ≡ false)
    × (e.extracted ≡ true)
    × Extractable (path ∷ paths) es

abbrev pub files_of : List ZipEntry → List (Text × Bytes)
files_of [] = []
files_of (e ∷ es) = elim e.enclosed_name [
  | none ↦ files_of es
  | some path ↦ if e.is_dir then files_of es else (path, e.content) ∷ files_of es
]

abbrev Outcome : Type 0
Outcome = Result StagedBackup × Option (List (Text × Bytes))

-- What a call of `stage_backup` comes to.
abbrev pub Staged : Option (Option (List ZipEntry)) → Outcome → Type 0
Staged archive (err x, kept) = kept ≡ none
Staged archive (ok staged, kept) =
    (entries : List ZipEntry) × (archive ≡ some (some entries))
    × (length entries ≤ max_archive_entries)
    × (sizes entries ≤ max_uncompressed_bytes)
    × Extractable [] entries
    × (staged.files ≡ files_of entries)
    × (kept ≡ some staged.files)
