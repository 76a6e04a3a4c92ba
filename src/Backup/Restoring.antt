-- ===== src/Backup/Restoring.antt =====
-- `restore_staged` of packages/runtime/rust/src/runtime/backup_api.rs: a staged backup takes the place
-- of the data on the disk and of the stores in memory. What each store makes of its files is a
-- parameter here; the stores have modules of their own.
use linguaray.Base.{Bool, true, false, Option, none, some, codes, if◌then◌else◌, ℕ}
use linguaray.Errors.{Error, Result, ok, err, install_failed, proxy_failed}
use linguaray.Backup.Install.{
  Dir, Disk, Moves, InstalledBackup, put, restore_originals, commit_backup, install_staged_backup,
}
use linguaray.Backup.Archive.{BackupManifest}

-- The settings, the engine, the secrets of the providers, the three stores, and the network proxy
-- of the process.
pub record Live (S E K G H V P : Type 0) : Type 0 where
  pub settings : S
  pub engine : E
  pub provider_secrets : K
  pub glossary : G
  pub history : H
  pub vocabulary : V
  pub proxy : P

-- The loaders of the stores; those of the history and of the vocabulary may write their files.
pub record Parts (A S E K G H V P : Type 0) : Type 0 where
  pub load_settings : Option A → Result S
  pub apply_catalog_seed : S → S × Bool
  pub save_settings : S → Result A
  pub load_glossary : Dir A → Result G
  pub load_history : Dir A → H × Dir A
  pub load_vocabulary : Dir A → V × Dir A
  -- the secrets of the providers that the settings name
  pub retain_secrets : S → K → K
  pub proxy_of : S → Result P
  -- whether a client can be built for the proxy
  pub is_configurable : P → Bool
  pub build_engine : S → K → Result E

-- `RestoreSummary` is taken from the manifest.
pub record Restored (A S E K G H V P : Type 0) : Type 0 where
  pub result : Result (ℕ × Bool)
  pub disk : Disk A
  pub live : Live S E K G H V P

module _ {A S E K G H V P : Type 0} (parts : Parts A S E K G H V P) where
  -- `let _ = configure_network_proxy(previous)` while another one is set
  abbrev pub back_to : P → P → P
  back_to previous current = if parts.is_configurable previous then previous else current

  -- `build_from_settings_with_secrets` of domain/engine.rs: the engine, and the proxy afterwards
  abbrev pub built_or : P → P → Result E → Result E × P
  built_or previous next (ok engine) = (ok engine, next)
  built_or previous next (err e) = (err e, back_to previous next)

  abbrev pub with_proxy : S → K → P → Result P → Result E × P
  with_proxy settings secrets previous (err e) = (err e, previous)
  with_proxy settings secrets previous (ok next) =
      if parts.is_configurable next
      then built_or previous next (parts.build_engine settings secrets)
      else (err proxy_failed, previous)

  unfoldable pub build_from_settings_with_secrets : S → K → P → Result E × P
  build_from_settings_with_secrets settings secrets previous =
      with_proxy settings secrets previous (parts.proxy_of settings)

  module _ (m : Moves) (manifest : BackupManifest) where
    abbrev pub failed : Error → Disk A → Live S E K G H V P → Restored A S E K G H V P
    failed e disk live = record { result = err e; disk = disk; live = live }

    -- The history and the vocabulary of the installed files, and the commit
    abbrev pub take_over : Live S E K G H V P → G → InstalledBackup A → Restored A S E K G H V P
    take_over next glossary b =
        let h = parts.load_history b.disk.data_dir in
        let v = parts.load_vocabulary h.1 in
        record {
          result = ok (manifest.created_at, manifest.includes_secrets);
          disk = commit_backup m (record b { disk = record b.disk { data_dir = v.1 } });
          live = record next { glossary = glossary; history = h.0; vocabulary = v.0 };
        }

    -- The glossary of the installed files: an error drops the installation.
    abbrev pub after_glossary :
        Live S E K G H V P
        → Live S E K G H V P
        → InstalledBackup A
        → Result G
        → Restored A S E K G H V P
    after_glossary live next b (ok glossary) = take_over next glossary b
    after_glossary live next b (err e) =
        failed e (restore_originals m b) (record live { proxy = back_to live.proxy next.proxy })

    abbrev pub after_install :
        Live S E K G H V P
        → Live S E K G H V P
        → Option (InstalledBackup A) × Disk A
        → Restored A S E K G H V P
    after_install live next (some b, disk) =
        after_glossary live next b (parts.load_glossary b.disk.data_dir)
    after_install live next (none, disk) =
        failed install_failed disk (record live { proxy = back_to live.proxy next.proxy })

    -- The engine for the next settings, then the installation
    abbrev pub after_engine :
        Live S E K G H V P → S → K → Disk A → Result E × P → Restored A S E K G H V P
    after_engine live settings secrets disk (err e, proxy) =
        failed e disk (record live { proxy = proxy })
    after_engine live settings secrets disk (ok engine, proxy) =
        after_install live
          (record live {
            settings = settings;
            engine = engine;
            provider_secrets = secrets;
            proxy = proxy;
          })
          (install_staged_backup m disk)

    -- The staged stores are loaded once before anything is replaced.
    abbrev pub after_check : Live S E K G H V P → S → Disk A → Result G → Restored A S E K G H V P
    after_check live settings disk (err e) = failed e disk live
    after_check live settings disk (ok glossary) =
        let h = parts.load_history disk.staging in
        let v = parts.load_vocabulary h.1 in
        let secrets = parts.retain_secrets settings live.provider_secrets in
        after_engine live settings secrets (record disk { staging = v.1 })
          (build_from_settings_with_secrets settings secrets live.proxy)

    -- The seeded settings are saved among the staged files.
    abbrev pub after_save : Live S E K G H V P → S → Disk A → Result A → Restored A S E K G H V P
    after_save live settings disk (err e) = failed e disk live
    after_save live settings disk (ok content) =
        let staging = put (codes "settings.json") (some content) disk.staging in
        after_check live settings (record disk { staging = staging }) (parts.load_glossary staging)

    abbrev pub after_seed : Live S E K G H V P → Disk A → S × Bool → Restored A S E K G H V P
    after_seed live disk (settings, true) =
        after_save live settings disk (parts.save_settings settings)
    after_seed live disk (settings, false) =
        after_check live settings disk (parts.load_glossary disk.staging)

    abbrev pub after_settings : Live S E K G H V P → Disk A → Result S → Restored A S E K G H V P
    after_settings live disk (err e) = failed e disk live
    after_settings live disk (ok settings) =
        after_seed live disk (parts.apply_catalog_seed settings)

    unfoldable pub restore_staged : Live S E K G H V P → Disk A → Restored A S E K G H V P
    unfolding install_staged_backup restore_originals commit_backup build_from_settings_with_secrets
    restore_staged live disk =
        after_settings live disk (parts.load_settings (disk.staging (codes "settings.json")))
