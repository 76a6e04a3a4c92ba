-- ===== src/Backup/Rollback.antt =====
-- An installation of a backup: what it leaves on success, after an error, and when it is dropped.
use linguaray.Base.{
  ◌≡◌, refl, ap, ◌∙◌, Bool, true, false, Option, none, some, List, [], ◌∷◌, arith, if◌then◌else◌,
  Text, same, any-append,
}
use linguaray.Backup.Install.{
  Disk, Moves, Moved, data_targets, save_all, install_all, remove_all, reversed, InstalledBackup,
  with_new_rollback, restore_originals, commit_backup, install_loops, settle, install_staged_backup,
}
use linguaray.Backup.Moving.{
  if_exists-ind, listed, or_else, save_all-Saved, install_all-Installed, remove_all-data,
  remove_all-rollback, return_all-data, return_all-lost,
}

listed-reversed : (t : Text) (names : List Text) → listed t (reversed names) ≡ listed t names
listed-reversed t [] = refl
listed-reversed t (name ∷ rest) =
    any-append (λ n. same n t) (reversed rest) (name ∷ []) ∙ ground (arith, listed-reversed t rest)

-- Removals and moves back go through.
pub record Undoes (m : Moves) : Type 0 where
  pub removes : (name : Text) → m.removes name ≡ true
  pub returns : (name : Text) → m.returns name ≡ true

-- What taking an installation back gives under a name.
abbrev taken_back {ℓ} : {A : Type ℓ} → Text → InstalledBackup A → Option A
taken_back t b =
    let left = if listed t b.installed_names then none else b.disk.data_dir t in
    if listed t b.saved_names then or_else (b.disk.rollback t) left else left

data-restore_originals {ℓ} :
    {A : Type ℓ} (m : Moves) (t : Text) (b : InstalledBackup A)
    → Undoes m
    → (restore_originals m b).data_dir t ≡ taken_back t b
unfolding restore_originals
data-restore_originals m t b u =
    let removed = remove_all m b.installed_names b.disk in
    return_all-data m t (reversed b.saved_names) removed u.returns
    ∙ ground (
      arith,
      listed-reversed t b.saved_names,
      remove_all-data m t b.installed_names b.disk u.removes,
      ap (λ dir. dir t) (remove_all-rollback m t b.installed_names b.disk),
    )

rollback-restore_originals {ℓ} :
    {A : Type ℓ} (m : Moves) (t : Text) (b : InstalledBackup A)
    → m.clears t ≡ true
    → (restore_originals m b).rollback t ≡ none
unfolding restore_originals
rollback-restore_originals m t b clears = rw clears refl

save_all-complete {ℓ} :
    {A : Type ℓ} (m : Moves)
    → ((name : Text) → m.saves name ≡ true)
    → (names : List Text) (d : Disk A) → (save_all m names d).complete ≡ true
unfolding save_all
save_all-complete m saves [] d = refl
save_all-complete m saves (name ∷ rest) d =
    if_exists-ind (λ (r : Moved _). r.complete ≡ true) (d.data_dir name) (m.saves name)
      (λ absent. save_all-complete m saves rest d)
      (λ content found moves. save_all-complete m saves rest _)
      (λ content found stays. absurd (cc (saves name, stays)))

module _ {ℓ} {A : Type ℓ} (m : Moves) (t : Text) (targets : List Text) (d : Disk A) where
  -- Whatever the loops did, taking it back gives the old data.
  loops_undone :
      Undoes m → (restore_originals m (install_loops m targets d).1).data_dir t ≡ d.data_dir t
  unfolding install_loops
  loops_undone u =
      let s = save_all m targets d in
      let first = save_all-Saved m t targets d in
      let i = install_all m targets s.disk in
      let second = install_all-Installed m t targets s.disk in
      data-restore_originals m t _ u
      ∙ ground (
        arith,
        first.there,
        first.data_is,
        first.rollback_is,
        first.gone,
        second.data_is,
        second.within,
        ap (λ dir. dir t) second.rollback_is,
      )

  -- After both loops every target is what was staged under its name, and nothing else has changed.
  loops_installed :
      (install_loops m targets d).0 ≡ true
      → (install_loops m targets d).1.disk.data_dir t
        ≡ (if listed t targets then d.staging t else d.data_dir t)
  unfolding install_loops
  loops_installed complete =
      let s = save_all m targets d in
      let first = save_all-Saved m t targets d in
      let second = install_all-Installed m t targets s.disk in
      ground (
        arith,
        first.data_is,
        first.gone,
        first.within,
        second.data_is,
        second.within,
        second.whole,
        ap (λ dir. dir t) first.staging_is,
      )

  -- A target that cannot be moved back, after an installation whose second loop has failed.
  loops_lost :
      ((name : Text) → m.saves name ≡ true)
      → ((name : Text) → m.removes name ≡ true)
      → m.returns t ≡ false
      → listed t targets ≡ true
      → (restore_originals m (install_loops m targets d).1).data_dir t ≡ none
  unfolding install_loops restore_originals
  loops_lost saves removes fails target =
      let s = save_all m targets d in
      let first = save_all-Saved m t targets d in
      let i = install_all m targets s.disk in
      let second = install_all-Installed m t targets s.disk in
      let complete : s.complete ≡ true = save_all-complete m saves targets d in
      rw complete (
        return_all-lost m t (reversed s.names) (remove_all m i.names i.disk) fails
        ∙ remove_all-data m t i.names i.disk removes
        ∙ ground (arith, first.gone, second.data_is))

module _ {ℓ} {A : Type ℓ} (m : Moves) (d : Disk A) (t : Text) (p : Bool × InstalledBackup A) where
  settle-undone :
      (restore_originals m p.1).data_dir t ≡ d.data_dir t
      → ((settle m d p).0 ≡ none → (settle m d p).1.data_dir t ≡ d.data_dir t)
        × ((b : InstalledBackup A)
            → (settle m d p).0 ≡ some b
            → (restore_originals m b).data_dir t ≡ d.data_dir t)
  unfolding settle
  settle-undone undone = (λ failed. ground (arith, undone), λ b installed. ground (arith, undone))

  settle-done :
      (expected : Option A)
      → (p.0 ≡ true → p.1.disk.data_dir t ≡ expected)
      → (b : InstalledBackup A) → (settle m d p).0 ≡ some b
      → (commit_backup m b).data_dir t ≡ expected
  unfolding settle commit_backup
  settle-done expected done b installed = ground (arith, done)

  settle-lost :
      m.prepared ≡ true
      → m.clears t ≡ true
      → (restore_originals m p.1).data_dir t ≡ none
      → (settle m d p).0 ≡ none
      → ((settle m d p).1.data_dir t ≡ none) × ((settle m d p).1.rollback t ≡ none)
  unfolding settle
  settle-lost prepared clears lost failed =
      (ground (arith, lost), ground (arith, rollback-restore_originals m t p.1 clears))

module _ {ℓ} {A : Type ℓ} (m : Moves) (d : Disk A) where
  -- If an installation fails, or is dropped without a commit, the data directory is what it was,
  -- provided that what was installed can be removed and what was saved can be moved back.
  pub install-rolls_back :
      Undoes m
      → (t : Text)
      → ((install_staged_backup m d).0 ≡ none
          → (install_staged_backup m d).1.data_dir t ≡ d.data_dir t)
        × ((b : InstalledBackup A)
            → (install_staged_backup m d).0 ≡ some b
            → (restore_originals m b).data_dir t ≡ d.data_dir t)
  unfolding install_staged_backup
  install-rolls_back u t =
      settle-undone m d t _ (loops_undone m t data_targets (with_new_rollback d) u)

  -- A committed installation has under each of the four names what was staged there, or nothing, and
  -- leaves every other name alone. Of the rollback it keeps what cannot be removed.
  pub install-commits :
      (b : InstalledBackup A)
      → (install_staged_backup m d).0 ≡ some b
      → (t : Text)
      → ((commit_backup m b).data_dir t
          ≡ (if listed t data_targets then d.staging t else d.data_dir t))
        × ((commit_backup m b).rollback t ≡ (if m.clears t then none else b.disk.rollback t))
  unfolding install_staged_backup commit_backup
  install-commits b installed t = (
    settle-done m d t _ _ (loops_installed m t data_targets (with_new_rollback d)) b installed,
    refl,
  )

  -- If an installation fails in its second loop, every old target having been saved, what was
  -- installed is removed and the removal of the rollback directory goes through, then a target that
  -- cannot be moved back is lost: it is neither in the data directory nor in the rollback directory.
  pub install-loses :
      m.prepared ≡ true
      → ((name : Text) → m.saves name ≡ true)
      → ((name : Text) → m.removes name ≡ true)
      → (t : Text) → listed t data_targets ≡ true
      → m.returns t ≡ false
      → m.clears t ≡ true
      → (install_staged_backup m d).0 ≡ none
      → ((install_staged_backup m d).1.data_dir t ≡ none)
        × ((install_staged_backup m d).1.rollback t ≡ none)
  unfolding install_staged_backup
  install-loses prepared saves removes t target fails clears failed =
      settle-lost m d t _ prepared clears
        (loops_lost m t data_targets (with_new_rollback d) saves removes fails target) failed
