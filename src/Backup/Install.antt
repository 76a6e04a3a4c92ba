-- ===== src/Backup/Install.antt =====
-- `install_staged_backup` and `InstalledBackup`: the old data is moved aside, the staged data moved
-- in, and the old data moved back if a move fails or the installation is dropped. A directory is
-- what lies under each name; `A` is a file, or a folder with what it holds.
use linguaray.Base.{
  Bool, true, false, Option, none, some, List, [], ◌∷◌, ◌++◌, if◌then◌else◌, Text, codes, same,
}

abbrev pub Dir {ℓ} : Type ℓ → Type ℓ
Dir A = Text → Option A

pub record Disk {ℓ} (A : Type ℓ) : Type ℓ where
  pub data_dir : Dir A
  pub rollback : Dir A
  pub staging : Dir A

-- What the system answers: before the moves, to the two moves of a name, to its removal and to the move back.
pub record Moves : Type 0 where
  -- the data directory and an empty rollback directory can be made
  pub prepared : Bool
  pub saves : Text → Bool
  pub installs : Text → Bool
  pub removes : Text → Bool
  pub returns : Text → Bool
  -- whether the removal of the rollback directory takes away what lies under a name there
  pub clears : Text → Bool

abbrev pub data_targets : List Text
data_targets =
    codes "settings.json" ∷ codes "history.json" ∷ codes "vocabulary.json" ∷ codes "glossary" ∷ []

abbrev pub put {ℓ} : {A : Type ℓ} → Text → Option A → Dir A → Dir A
put name content dir = λ other. if same name other then content else dir other

-- `if path.exists()` around a move: nothing is there, it moves, or it does not.
abbrev pub if_exists {ℓ κ} : {A : Type ℓ} {B : Type κ} → Option A → Bool → B → B → B → B
if_exists none ok absent moved stays = absent
if_exists (some a) true absent moved stays = moved
if_exists (some a) false absent moved stays = stays

-- A loop over the names: whether it came to its end, the names that were moved, and the disk.
pub record Moved {ℓ} (A : Type ℓ) : Type ℓ where
  pub complete : Bool
  pub names : List Text
  pub disk : Disk A

module _ {ℓ} {A : Type ℓ} (m : Moves) where
  -- The first loop of the closure: what exists is moved to the rollback directory.
  unfoldable pub save_all : List Text → Disk A → Moved A
  save_all [] d = record { complete = true; names = []; disk = d }
  save_all (name ∷ rest) d =
      let moved = record d {
        data_dir = put name none d.data_dir;
        rollback = put name (d.data_dir name) d.rollback;
      } in
      let others = save_all rest moved in
      if_exists (d.data_dir name) (m.saves name) (save_all rest d)
        (record others { names = name ∷ others.names })
        (record { complete = false; names = []; disk = d })

  -- The second loop: what is staged is moved into the data directory.
  unfoldable pub install_all : List Text → Disk A → Moved A
  install_all [] d = record { complete = true; names = []; disk = d }
  install_all (name ∷ rest) d =
      let moved = record d {
        data_dir = put name (d.staging name) d.data_dir;
        staging = put name none d.staging;
      } in
      let others = install_all rest moved in
      if_exists (d.staging name) (m.installs name) (install_all rest d)
        (record others { names = name ∷ others.names })
        (record { complete = false; names = []; disk = d })

  -- What was installed is removed; an error is ignored.
  unfoldable pub remove_all : List Text → Disk A → Disk A
  remove_all [] d = d
  remove_all (name ∷ rest) d =
      remove_all rest
        (if m.removes name then record d { data_dir = put name none d.data_dir } else d)

  -- What was saved is moved back; an error is ignored.
  unfoldable pub return_all : List Text → Disk A → Disk A
  return_all [] d = d
  return_all (name ∷ rest) d =
      let moved = record d {
        data_dir = put name (d.rollback name) d.data_dir;
        rollback = put name none d.rollback;
      } in
      return_all rest (if_exists (d.rollback name) (m.returns name) d moved d)

-- `saved_names.rev()`
abbrev pub reversed : List Text → List Text
reversed [] = []
reversed (name ∷ rest) = reversed rest ++ name ∷ []

pub record InstalledBackup {ℓ} (A : Type ℓ) : Type ℓ where
  pub disk : Disk A
  pub saved_names : List Text
  pub installed_names : List Text

-- `let _ = fs::remove_dir_all(&rollback)`: an error is ignored, and may leave some of it.
abbrev pub without_rollback {ℓ} : {A : Type ℓ} → Moves → Disk A → Disk A
without_rollback m d = record d {
  rollback = λ name. if m.clears name then none else d.rollback name;
}

-- `fs::create_dir(&rollback)`, under a name of its own
abbrev pub with_new_rollback {ℓ} : {A : Type ℓ} → Disk A → Disk A
with_new_rollback d = record d { rollback = λ name. none }

module _ {ℓ} {A : Type ℓ} (m : Moves) where
  -- `restore_originals`, which `drop` calls on an installation that is not committed, and the same
  -- steps after an error in `install_staged_backup`.
  unfoldable pub restore_originals : InstalledBackup A → Disk A
  unfolding remove_all return_all
  restore_originals b =
      without_rollback m
        (return_all m (reversed b.saved_names) (remove_all m b.installed_names b.disk))

  -- `InstalledBackup::commit`
  unfoldable pub commit_backup : InstalledBackup A → Disk A
  commit_backup b = without_rollback m b.disk

  -- What the closure leaves behind: an error skips the second loop.
  unfoldable pub install_loops : List Text → Disk A → Bool × InstalledBackup A
  unfolding save_all install_all
  install_loops targets d =
      let first = save_all m targets d in
      let second = install_all m targets first.disk in
      if first.complete
      then (
        second.complete,
        record { disk = second.disk; saved_names = first.names; installed_names = second.names },
      )
      else (false, record { disk = first.disk; saved_names = first.names; installed_names = [] })

  -- The installation, or the disk after an error that is rolled back; `none` is the error.
  unfoldable pub settle : Disk A → Bool × InstalledBackup A → Option (InstalledBackup A) × Disk A
  unfolding restore_originals
  settle d (complete, b) =
      if m.prepared
      then if complete then (some b, b.disk) else (none, restore_originals b)
      else (none, d)

  unfoldable pub install_staged_backup : Disk A → Option (InstalledBackup A) × Disk A
  unfolding install_loops settle
  install_staged_backup d = settle d (install_loops data_targets (with_new_rollback d))
