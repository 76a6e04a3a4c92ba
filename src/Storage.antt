-- ===== src/Storage.antt =====
-- packages/runtime/rust/src/storage.rs: staging beside the destination, then an atomic rename.
-- The operating system's answers are the fields of an `Attempt`. A directory is what a reader
-- sees of it: the committed file, decoded, and the staging files that lie beside it.
pub mod Atomic
mod Tests
use linguaray.Base.{
  ℕ, ◌+◌, ◌-◌, Bool, true, false, Option, none, some, List, [], ◌∷◌, ◌==◌, if◌then◌else◌,
}
use linguaray.Errors.{
  Error, Result, ok, err, create_failed, stage_failed, write_failed, flush_failed, commit_failed,
}

pub record Attempt : Type 0 where
  -- `serde_json::to_string_pretty` succeeds; a step of the callers, before the write
  pub encoded : Bool
  pub created : Bool
  pub staged : Bool
  pub written : Bool
  pub flushed : Bool
  pub committed : Bool
  pub dir_synced : Bool

pub record Directory {ℓ} (A : Type ℓ) : Type ℓ where
  pub destination : Option A
  pub staging : ℕ
  -- files that were moved aside, by the second that their name ends in
  pub quarantined : ℕ → Option A

-- The outcome of a call and the directories that it passes through, the last one first: a process
-- that is terminated leaves one of them behind.
pub record Outcome {ℓ} (T A : Type ℓ) : Type ℓ where
  pub result : Result T
  pub final : Directory A
  pub passed : List (Directory A)

module _ {ℓ} {A : Type ℓ} where
  -- `tempfile_in`, and `Drop for NamedTempFile`
  abbrev stage : Directory A → Directory A
  stage d = record d { staging = d.staging + 1 }

  abbrev unstage : Directory A → Directory A
  unstage d = record d { staging = d.staging - 1 }

  -- `persist`: the staging file becomes the destination.
  abbrev rename : A → Directory A → Directory A
  rename content d = record d { destination = some content; staging = d.staging - 1 }

module _ {ℓ} {T A : Type ℓ} where
  abbrev failed : Error → Directory A → List (Directory A) → Outcome T A
  failed e d ds = record { result = err e; final = d; passed = d ∷ ds }

  commit_staged : Attempt → T → A → Directory A → Outcome T A
  commit_staged a value content d =
      let staged = stage d in
      if a.flushed
      then if a.committed
        then record {
          result = ok value;
          final = rename content staged;
          passed = rename content staged ∷ staged ∷ d ∷ [];
        }
        else failed commit_failed (unstage staged) (staged ∷ d ∷ [])
      else failed flush_failed (unstage staged) (staged ∷ d ∷ [])

  -- `write` is what the closure returned; `content` is what it has put into the staging file.
  unfoldable pub write_atomic : Attempt → Result T → A → Directory A → Outcome T A
  unfolding commit_staged
  write_atomic a write content d =
      if a.created
      then if a.staged
        then elim write [
          | ok value ↦ commit_staged a value content d
          | err e ↦ failed e (unstage (stage d)) (stage d ∷ d ∷ [])
        ]
        else failed stage_failed d []
      else failed create_failed d []

unfoldable pub write_bytes {ℓ} : {A : Type ℓ} → Attempt → A → Directory A → Outcome (Unit {ℓ}) A
unfolding write_atomic
write_bytes a content d = write_atomic a (if a.written then ok tt else err write_failed) content d

-- `quarantine` of history.rs and vocabulary.rs, at the clock `now`; `renamed` is the answer of
-- `fs::rename`.
unfoldable pub quarantine {ℓ} : {A : Type ℓ} → ℕ → Bool → Directory A → Directory A
quarantine now renamed d = elim d.destination [
  | none ↦ d
  | some content ↦
      if renamed
      then record d {
        destination = none;
        quarantined = λ k. if k == now then some content else d.quarantined k;
      }
      else d
]
