-- ===== src/Backup/Restored.antt =====
-- A restore replaces the data on the disk and the stores in memory together, or neither.
use linguaray.Base.{
  ℕ, ◌≡◌, refl, sym, ap, ◌∙◌, inl, inr, Bool, true, false, Bool-cases, Option, none, some, Text,
  codes, if◌then◌else◌, arith,
}
use linguaray.Errors.{Error, Result, ok, err}
use linguaray.Backup.Install.{
  Dir, Disk, Moves, InstalledBackup, put, restore_originals, commit_backup, install_staged_backup,
  data_targets,
}
use linguaray.Backup.Moving.{listed}
use linguaray.Backup.Rollback.{Undoes, install-rolls_back, install-commits}
use linguaray.Backup.Archive.{BackupManifest}
use linguaray.Backup.Restoring.{
  Live, Parts, Restored, back_to, built_or, with_proxy, build_from_settings_with_secrets, take_over,
  after_glossary, after_install, after_engine, after_check, after_save, after_seed, after_settings,
  restore_staged,
}

module _ {A S E K G H V P : Type 0} (parts : Parts A S E K G H V P) where
  -- The staged files when the settings have been seeded: saved again only if that has changed them.
  abbrev pub SavedAs : S → Bool → Dir A → Dir A → Type 0
  SavedAs settings true staging saved =
      (content : A) × (parts.save_settings settings ≡ ok content)
      × (saved ≡ put (codes "settings.json") (some content) staging)
  SavedAs settings false staging saved = saved ≡ staging

  -- The settings that are staged, seeded and saved
  pub record Prepared (disk : Disk A) (settings : S) (saved : Dir A) : Type 0 where
    pub loaded : S
    pub is_loaded : parts.load_settings (disk.staging (codes "settings.json")) ≡ ok loaded
    pub seeded : settings ≡ (parts.apply_catalog_seed loaded).0
    pub is_saved : SavedAs settings (parts.apply_catalog_seed loaded).1 disk.staging saved

  -- What the loaders of the history and the vocabulary leave of a directory
  abbrev pub after_loaders : Dir A → Dir A
  after_loaders dir = (parts.load_vocabulary (parts.load_history dir).1).1

  -- The memory and the disk after a restore
  pub record TakenOver (live : Live S E K G H V P) (disk disk' : Disk A)
      (live' : Live S E K G H V P) : Type 0 where
    pub saved : Dir A
    pub prepared : Prepared disk live'.settings saved
    pub secrets : live'.provider_secrets ≡ parts.retain_secrets live'.settings live.provider_secrets
    pub proxy : parts.proxy_of live'.settings ≡ ok live'.proxy
    pub engine : parts.build_engine live'.settings live'.provider_secrets ≡ ok live'.engine
    pub dir : Dir A
    pub installed :
        (t : Text)
        → dir t ≡ (if listed t data_targets then after_loaders saved t else disk.data_dir t)
    pub glossary : parts.load_glossary dir ≡ ok live'.glossary
    pub history : (parts.load_history dir).0 ≡ live'.history
    pub vocabulary : (parts.load_vocabulary (parts.load_history dir).1).0 ≡ live'.vocabulary
    pub left : disk'.data_dir ≡ after_loaders dir

  -- After an error memory and data are what they were.
  abbrev pub IsWhole :
      Live S E K G H V P → Disk A → Result (ℕ × Bool) → Disk A → Live S E K G H V P → Type 0
  IsWhole live disk (err e) disk' live' =
      (live' ≡ live) × ((t : Text) → disk'.data_dir t ≡ disk.data_dir t)
  IsWhole live disk (ok summary) disk' live' = TakenOver live disk disk' live'

  abbrev pub IsWholeRestore : Live S E K G H V P → Disk A → Restored A S E K G H V P → Type 0
  IsWholeRestore live disk r = IsWhole live disk r.result r.disk r.live

  back_to-previous :
      (previous current : P)
      → parts.is_configurable previous ≡ true
      → back_to parts previous current ≡ previous
  back_to-previous previous current h = rw h refl

  -- A build that fails leaves the proxy as it was.
  built_or-err :
      (previous next : P) (engine : Result E) {e : Error} {proxy : P}
      → parts.is_configurable previous ≡ true
      → built_or parts previous next engine ≡ (err e, proxy)
      → proxy ≡ previous
  built_or-err previous next (ok engine) h failure = absurd (ground arith)
  built_or-err previous next (err x) h failure =
      sym (ap (λ r. r.1) failure) ∙ back_to-previous previous next h

  with_proxy-err :
      (settings : S) (secrets : K) (previous : P) (next : Result P) {e : Error} {proxy : P}
      → parts.is_configurable previous ≡ true
      → with_proxy parts settings secrets previous next ≡ (err e, proxy)
      → proxy ≡ previous
  with_proxy-err settings secrets previous (err e) h failure = sym (ap (λ r. r.1) failure)
  with_proxy-err settings secrets previous (ok next) h failure =
      elim (Bool-cases (parts.is_configurable next)) [
        | inl good ↦
            built_or-err previous next (parts.build_engine settings secrets) h (rw good at failure)
        | inr bad ↦ sym (ap (λ r. r.1) (rw bad at failure))
      ]

  -- A build that succeeds sets the proxy of the settings.
  built_or-ok :
      (previous next : P) (made : Result E) {engine : E} {proxy : P}
      → built_or parts previous next made ≡ (ok engine, proxy)
      → (next ≡ proxy) × (made ≡ ok engine)
  built_or-ok previous next (ok made) h = (ap (λ r. r.1) h, ap (λ r. r.0) h)
  built_or-ok previous next (err x) h = absurd (ground arith)

  with_proxy-ok :
      (settings : S) (secrets : K) (previous : P) (next : Result P) {engine : E} {proxy : P}
      → with_proxy parts settings secrets previous next ≡ (ok engine, proxy)
      → (next ≡ ok proxy) × (parts.build_engine settings secrets ≡ ok engine)
  with_proxy-ok settings secrets previous (err e) h = absurd (ground arith)
  with_proxy-ok settings secrets previous (ok next) h =
      elim (Bool-cases (parts.is_configurable next)) [
        | inl good ↦
            let (p, e) =
              built_or-ok previous next (parts.build_engine settings secrets) (rw good at h) in
            (ap ok p, e)
        | inr bad ↦ let h' = rw bad at h in absurd (ground arith)
      ]

  module _ (m : Moves) (manifest : BackupManifest) (live : Live S E K G H V P)
      (usable : parts.is_configurable live.proxy ≡ true) where
    restored_proxy : (current : P) → record live { proxy = back_to parts live.proxy current } ≡ live
    restored_proxy current =
        ap (λ p. record live { proxy = p }) (back_to-previous live.proxy current usable)

    after_glossary-IsWhole :
        (next : Live S E K G H V P) (disk : Disk A) (b : InstalledBackup A) (glossary : Result G)
        → parts.load_glossary b.disk.data_dir ≡ glossary
        → ((t : Text) → (restore_originals m b).data_dir t ≡ disk.data_dir t)
        → ((g : G)
            → parts.load_glossary b.disk.data_dir ≡ ok g
            → IsWholeRestore live disk (take_over parts m manifest next g b))
        → IsWholeRestore live disk (after_glossary parts m manifest live next b glossary)
    after_glossary-IsWhole next disk b (err e) loaded back done = (restored_proxy next.proxy, back)
    after_glossary-IsWhole next disk b (ok glossary) loaded back done = done glossary loaded

    after_install-IsWhole :
        (next : Live S E K G H V P) (disk : Disk A) (r : Option (InstalledBackup A) × Disk A)
        → ((t : Text) → r.0 ≡ none → r.1.data_dir t ≡ disk.data_dir t)
        → ((t : Text) (b : InstalledBackup A)
            → r.0 ≡ some b
            → (restore_originals m b).data_dir t ≡ disk.data_dir t)
        → ((b : InstalledBackup A) (g : G)
            → r.0 ≡ some b
            → parts.load_glossary b.disk.data_dir ≡ ok g
            → IsWholeRestore live disk (take_over parts m manifest next g b))
        → IsWholeRestore live disk (after_install parts m manifest live next r)
    after_install-IsWhole next disk (none, d) gone back done =
        (restored_proxy next.proxy, λ t. gone t refl)
    after_install-IsWhole next disk (some b, d) gone back done =
        after_glossary-IsWhole next disk b (parts.load_glossary b.disk.data_dir) refl
          (λ t. back t b refl) (λ g. done b g refl)

    module _ (undoes : Undoes m) (disk : Disk A) where
      installed-is :
          (d : Disk A) (b : InstalledBackup A)
          → (install_staged_backup m d).0 ≡ some b
          → (t : Text)
          → b.disk.data_dir t ≡ (if listed t data_targets then d.staging t else d.data_dir t)
      unfolding commit_backup
      installed-is d b installed t = (install-commits m d b installed t).0

      after_engine-IsWhole :
          (settings : S) (saved : Dir A) (r : Result E × P)
          → Prepared disk settings saved
          → ((e : Error) (proxy : P) → r ≡ (err e, proxy) → proxy ≡ live.proxy)
          → ((engine : E) (proxy : P)
              → r ≡ (ok engine, proxy)
              → (parts.proxy_of settings ≡ ok proxy)
                × (parts.build_engine settings (parts.retain_secrets settings live.provider_secrets)
                    ≡ ok engine))
          → IsWholeRestore live disk (
              after_engine parts m manifest live settings
                (parts.retain_secrets settings live.provider_secrets)
                (record disk { staging = after_loaders saved })
                r)
      unfolding commit_backup
      after_engine-IsWhole settings saved (err e, proxy) p kept built =
          (ap (λ p. record live { proxy = p }) (kept e proxy refl), λ t. refl)
      after_engine-IsWhole settings saved (ok engine, proxy) p kept built =
          let d = record disk { staging = after_loaders saved } in
          let (its_proxy, its_engine) = built engine proxy refl in
          after_install-IsWhole
            (record live {
              settings = settings;
              engine = engine;
              provider_secrets = parts.retain_secrets settings live.provider_secrets;
              proxy = proxy;
            })
            disk (install_staged_backup m d) (λ t. (install-rolls_back m d undoes t).0)
            (λ t. (install-rolls_back m d undoes t).1)
            (λ b g installed loaded. record {
              saved = saved;
              prepared = p;
              secrets = refl;
              proxy = its_proxy;
              engine = its_engine;
              dir = b.disk.data_dir;
              installed = installed-is d b installed;
              glossary = loaded;
              history = refl;
              vocabulary = refl;
              left = refl;
            })

      after_check-IsWhole :
          (settings : S) (saved : Dir A) (glossary : Result G)
          → Prepared disk settings saved
          → IsWholeRestore live disk (
              after_check parts m manifest live settings (record disk { staging = saved }) glossary)
      unfolding build_from_settings_with_secrets
      after_check-IsWhole settings saved (err e) p = (refl, λ t. refl)
      after_check-IsWhole settings saved (ok glossary) p =
          let secrets = parts.retain_secrets settings live.provider_secrets in
          after_engine-IsWhole settings saved
            (build_from_settings_with_secrets parts settings secrets live.proxy) p
            (λ e proxy. with_proxy-err settings secrets live.proxy (parts.proxy_of settings) usable)
            (λ engine proxy. with_proxy-ok settings secrets live.proxy (parts.proxy_of settings))

      after_save-IsWhole :
          (settings : S) (content : Result A)
          → ((c : A)
              → content ≡ ok c
              → Prepared disk settings (put (codes "settings.json") (some c) disk.staging))
          → IsWholeRestore live disk (after_save parts m manifest live settings disk content)
      after_save-IsWhole settings (err e) p = (refl, λ t. refl)
      after_save-IsWhole settings (ok content) p = after_check-IsWhole settings _ _ (p content refl)

      after_seed-IsWhole :
          (loaded : S) (seeded : S × Bool)
          → parts.load_settings (disk.staging (codes "settings.json")) ≡ ok loaded
          → parts.apply_catalog_seed loaded ≡ seeded
          → IsWholeRestore live disk (after_seed parts m manifest live disk seeded)
      after_seed-IsWhole loaded (settings, true) l e =
          after_save-IsWhole settings (parts.save_settings settings) (λ c written. record {
            loaded = loaded;
            is_loaded = l;
            seeded = sym (ap (λ r. r.0) e);
            is_saved = rw e (c, written, refl);
          })
      after_seed-IsWhole loaded (settings, false) l e =
          after_check-IsWhole settings disk.staging _ (record {
            loaded = loaded;
            is_loaded = l;
            seeded = sym (ap (λ r. r.0) e);
            is_saved = rw e refl;
          })

      after_settings-IsWhole :
          (settings : Result S)
          → parts.load_settings (disk.staging (codes "settings.json")) ≡ settings
          → IsWholeRestore live disk (after_settings parts m manifest live disk settings)
      after_settings-IsWhole (err e) l = (refl, λ t. refl)
      after_settings-IsWhole (ok settings) l =
          after_seed-IsWhole settings (parts.apply_catalog_seed settings) l refl

      -- A restore replaces the data and the state in memory together, or neither, provided that a
      -- client can be built for the old proxy and that removals and moves back go through. After an
      -- error the live state, its proxy included, and the data directory are what they were. After
      -- Ok the settings are the staged ones, seeded, the secrets those of their providers, the
      -- engine and the proxy those for them; the stores are what the loaders make of a directory
      -- that has under the four names of a backup the staged files, with the seeded settings and
      -- as the first loading has left them, and else the old data; and the data directory is what
      -- the loaders leave of it.
      pub restore_staged-IsWhole :
          IsWholeRestore live disk (restore_staged parts m manifest live disk)
      unfolding restore_staged
      restore_staged-IsWhole =
          after_settings-IsWhole (parts.load_settings (disk.staging (codes "settings.json"))) refl
