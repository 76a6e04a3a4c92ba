-- ===== src/Storage/Tests.antt =====
-- A write that fails at its last step.
use linguaray.Base.{ℕ, ◌≡◌, ◌⊎◌, true, false, none, some, All, Bool}
use linguaray.Errors.{Result, ok}
use linguaray.Storage.{Attempt, Directory, write_atomic}
use linguaray.Storage.Atomic.{passed-OldOrNew}

abbrev no_rename : Attempt
no_rename = record {
  encoded = true;
  created = true;
  staged = true;
  written = true;
  flushed = true;
  committed = false;
  dir_synced = true;
}

abbrev folder : Directory ℕ
folder = record { destination = some 1; staging = 2; quarantined = λ k. none }

abbrev closure : Result Bool
closure = ok true

passed-OldOrNew_example :
    All
      (λ (seen : Directory ℕ).
        (seen.destination ≡ folder.destination)
        ⊎ ((seen.destination ≡ some 7)
            × ((value : Bool) × (closure ≡ ok value))
            × (no_rename.flushed ≡ true)))
      (write_atomic no_rename closure 7 folder).passed
passed-OldOrNew_example = passed-OldOrNew no_rename closure 7 folder
