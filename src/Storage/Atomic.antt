-- ===== src/Storage/Atomic.antt =====
-- What a write leaves behind, on every branch and at every moment of it.
use linguaray.Base.{◌≡◌, ◌⊎◌, true, some, arith, All}
use linguaray.Errors.{Result, ok, err}
use linguaray.Storage.{Attempt, Directory, write_atomic}

module _ {ℓ} {T A : Type ℓ} (a : Attempt) (write : Result T) (content : A) (d : Directory A) where
  -- Whenever the writer is stopped, a reader sees the old file, or the staged content after all of
  -- it had been written, without an error of the closure, and flushed.
  pub passed-OldOrNew :
      All
        (λ (seen : Directory A).
          (seen.destination ≡ d.destination)
          ⊎ ((seen.destination ≡ some content)
              × ((value : T) × (write ≡ ok value))
              × (a.flushed ≡ true)))
        (write_atomic a write content d).passed
  unfolding write_atomic
  passed-OldOrNew = ground arith

  -- No staging file stays behind a call that returns.
  pub staging-write_atomic : (write_atomic a write content d).final.staging ≡ d.staging
  unfolding write_atomic
  staging-write_atomic = ground arith

  -- The new file is there exactly when the call returns `Ok`; an error leaves the old one.
  pub destination-write_atomic :
      (write_atomic a write content d).final.destination
      ≡ elim (write_atomic a write content d).result [ ok _ ↦ some content | err _ ↦ d.destination ]
  unfolding write_atomic
  destination-write_atomic = ground arith
