-- ===== src/Backup/Tests.antt =====
-- Runs of the backups, and their theorems at concrete files.
use linguaray.Base.{
  Bool, ℕ, ◌≡◌, refl, true, false, not, none, some, List, [], ◌∷◌, length, Text, codes, same,
  starts_with, if◌then◌else◌,
}
use linguaray.Errors.{ok, err, unsupported_entry, read_failed}
use linguaray.History
use linguaray.Vocabulary
use linguaray.Glossary
use linguaray.Glossary.{unreadable}
use linguaray.Backup.Install.{
  Disk, Moves, InstalledBackup, data_targets, commit_backup, install_staged_backup, save_all,
  install_all, install_loops, settle,
}
use linguaray.Backup.Moving.{listed}
use linguaray.Backup.Rollback.{Undoes, install-rolls_back, install-commits, install-loses}
use linguaray.Backup.Archive.{
  Bytes, BackupManifest, Formats, ZipEntry, allowed_entry, total_size, extract, stage_backup,
  backup_format, backup_version,
}
use linguaray.Backup.Restoring.{Live, Parts, restore_staged, build_from_settings_with_secrets}
use linguaray.Backup.Restored.{IsWholeRestore, restore_staged-IsWhole}

-- Settings and a history are there; a backup brings settings and a glossary.
abbrev disk : Disk ℕ
disk = record {
  data_dir = λ t.
      if same t (codes "settings.json")
      then some 1
      else if same t (codes "history.json")
      then some 2
      else none;
  rollback = λ t. none;
  staging = λ t.
      if same t (codes "settings.json")
      then some 11
      else if same t (codes "glossary")
      then some 14
      else none;
}

-- Everything moves but the glossary, which cannot be installed.
abbrev blocked : Moves
blocked = record {
  prepared = true;
  saves = λ t. true;
  installs = λ t. not (same t (codes "glossary"));
  removes = λ t. true;
  returns = λ t. true;
  clears = λ t. true;
}

abbrev free : Moves
free = record blocked { installs = λ t. true }

-- The history cannot be moved back either.
abbrev stuck : Moves
stuck = record blocked { returns = λ t. not (same t (codes "history.json")) }

blocked-Undoes : Undoes blocked
blocked-Undoes = record { removes = λ t. refl; returns = λ t. refl }

abbrev installed : InstalledBackup ℕ
unfolding install_staged_backup install_loops settle save_all install_all same
installed = elim (install_staged_backup free disk).0 [
  | none ↦ record { disk = disk; saved_names = []; installed_names = [] }
  | some b ↦ b
]

installed_names : installed.installed_names ≡ codes "settings.json" ∷ codes "glossary" ∷ []
unfolding install_staged_backup install_loops settle save_all install_all same
installed_names = refl

blocked_fails : (install_staged_backup blocked disk).0 ≡ none
unfolding install_staged_backup install_loops settle save_all install_all same
blocked_fails = refl

stuck_fails : (install_staged_backup stuck disk).0 ≡ none
unfolding install_staged_backup install_loops settle save_all install_all same
stuck_fails = refl

installed_is : (install_staged_backup free disk).0 ≡ some installed
unfolding install_staged_backup install_loops settle save_all install_all same
installed_is = refl

install-rolls_back_example :
    (install_staged_backup blocked disk).1.data_dir (codes "history.json")
    ≡ disk.data_dir (codes "history.json")
install-rolls_back_example =
    (install-rolls_back blocked disk blocked-Undoes (codes "history.json")).0 blocked_fails

install-commits_example :
    ((commit_backup free installed).data_dir (codes "history.json") ≡ (
      if listed (codes "history.json") data_targets
      then disk.staging (codes "history.json")
      else disk.data_dir (codes "history.json")))
    × ((commit_backup free installed).rollback (codes "history.json") ≡ (
        if free.clears (codes "history.json")
        then none
        else installed.disk.rollback (codes "history.json")))
install-commits_example = install-commits free disk installed installed_is (codes "history.json")

is_target : listed (codes "history.json") data_targets ≡ true
unfolding same
is_target = refl

stuck_history : stuck.returns (codes "history.json") ≡ false
unfolding same
stuck_history = refl

install-loses_example :
    ((install_staged_backup stuck disk).1.data_dir (codes "history.json") ≡ none)
    × ((install_staged_backup stuck disk).1.rollback (codes "history.json") ≡ none)
install-loses_example =
    install-loses stuck disk refl (λ t. refl) (λ t. refl) (codes "history.json") is_target
      stuck_history refl stuck_fails

abbrev file : Text → Bytes → ZipEntry
file name content = record {
  readable = true;
  enclosed_name = some name;
  is_symlink = false;
  is_dir = false;
  size = length content;
  content = content;
  extracted = true;
}

abbrev archive : List ZipEntry
archive =
    file (codes "manifest.json") (codes "m")
    ∷ file (codes "settings.json") (codes "s")
    ∷ record (file (codes "glossary/") []) { is_dir = true }
    ∷ []

abbrev manifest : BackupManifest
manifest = record {
  format = backup_format;
  version = backup_version;
  created_at = 7;
  includes_secrets = false;
}

-- Every file can be parsed, and there is no history and no vocabulary.
abbrev formats : Formats
formats = record {
  manifest = λ t. some manifest;
  settings = λ t. true;
  history = λ t. History.malformed;
  vocabulary = λ t. Vocabulary.malformed;
  glossary = λ t. unreadable;
}

-- An archive with a file outside of the permitted names leaves nothing behind.
stranger :
    stage_backup formats (some (some (file (codes "notes.txt") [] ∷ archive))) true
    ≡ (err (unsupported_entry (codes "notes.txt")), none)
unfolding stage_backup total_size extract allowed_entry same starts_with
stranger = refl

-- A restore whose settings are the content of their file, and whose glossary must be there.
abbrev parts : Parts ℕ ℕ ℕ ℕ ℕ ℕ ℕ Bool
parts = record {
  load_settings = λ o. elim o [ none ↦ ok 0 | some n ↦ ok n ];
  apply_catalog_seed = λ n. (n, false);
  save_settings = ok;
  load_glossary = λ dir. elim (dir (codes "glossary")) [ none ↦ err read_failed | some n ↦ ok n ];
  load_history = λ dir. (elim (dir (codes "history.json")) [ none ↦ 0 | some n ↦ n ], dir);
  load_vocabulary = λ dir. (0, dir);
  retain_secrets = λ settings secrets. secrets;
  proxy_of = λ settings. ok true;
  is_configurable = λ proxy. true;
  build_engine = λ settings secrets. ok settings;
}

abbrev live : Live ℕ ℕ ℕ ℕ ℕ ℕ Bool
live = record {
  settings = 1;
  engine = 1;
  provider_secrets = 5;
  glossary = 0;
  history = 2;
  vocabulary = 0;
  proxy = false;
}

free-Undoes : Undoes free
free-Undoes = record { removes = λ t. refl; returns = λ t. refl }

restored_live :
    (restore_staged parts free manifest live disk).live
    ≡ record live { settings = 11; engine = 11; glossary = 14; history = 0; proxy = true }
unfolding restore_staged build_from_settings_with_secrets install_staged_backup install_loops settle
    save_all install_all same
restored_live = refl

restore_staged-IsWhole_example :
    IsWholeRestore parts live disk (restore_staged parts free manifest live disk)
restore_staged-IsWhole_example =
    restore_staged-IsWhole parts free manifest live refl free-Undoes disk
