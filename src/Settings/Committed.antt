-- ===== src/Settings/Committed.antt =====
-- A change of the settings is taken as a whole or not at all.
use linguaray.Base.{
  ◌≡◌, refl, ◌⊎◌, inl, inr, true, false, Option, none, some, [], ◌∷◌, ◌++◌, ℕ, arith, Bool-cases,
  Text, same,
}
use linguaray.Errors.{Result, ok, err}
use linguaray.Storage.{Attempt, Directory}
use linguaray.Network.{NetworkProxyConfig, Reqwest}
use linguaray.Network.Configured.{IsConfigurable, configure-IsConfigurable}
use linguaray.Engine.{ProviderConfig, Registry}
use linguaray.Settings.{Settings}
use linguaray.Settings.Building.{proxy_config, engine_of, build_from_settings_with_secrets}
use linguaray.Settings.State.{
  SettingsChange, Contents, document, encode, save, touch_last_updated, engine_changed, Runtime,
  retain_secrets, saved, saved_engine, after_build, store, updated, commit_settings,
}
use linguaray.Settings.Built.{Built, build-Built}

-- What `save` leaves in the file
abbrev pub Saved : Settings → Directory Contents → Result (Unit {0}) × Directory Contents → Type 0
Saved s d (ok _, file) = file.destination ≡ some (document (encode s))
Saved s d (err e, file) = file.destination ≡ d.destination

pub save-Saved : (a : Attempt) (s : Settings) (d : Directory Contents) → Saved s d (save a s d)
unfolding save
save-Saved a s d = ground arith

module _ {P : Type 0} (build_provider : Text → ProviderConfig → Result P) (r : Reqwest) where
  -- Nothing has changed but for files that are not the settings file.
  pub record Unchanged (rt rt' : Runtime P) : Type 0 where
    pub settings : rt'.settings ≡ rt.settings
    pub engine : rt'.engine ≡ rt.engine
    pub secrets : rt'.provider_secrets ≡ rt.provider_secrets
    pub proxy : rt'.proxy ≡ rt.proxy
    pub events : rt'.events ≡ rt.events
    pub file : rt'.file.destination ≡ rt.file.destination

  same-Unchanged : (rt : Runtime P) → Unchanged rt rt
  same-Unchanged rt = record {
    settings = refl;
    engine = refl;
    secrets = refl;
    proxy = refl;
    events = refl;
    file = refl;
  }

  -- The engine and the proxy are those of the settings, or those of before if the settings do not
  -- differ in what an engine is made of.
  abbrev pub EngineOf : Runtime P → Runtime P → Type 0
  EngineOf rt rt' =
      ((engine_changed rt'.settings rt.settings ≡ true)
        × (engine_of build_provider rt'.settings.providers rt'.provider_secrets ≡ ok rt'.engine)
        × (proxy_config rt'.settings.advanced ≡ ok rt'.proxy)
        × IsConfigurable r rt'.proxy
        × (rt'.provider_secrets ≡ retain_secrets rt'.settings.providers rt.provider_secrets))
      ⊎ ((engine_changed rt'.settings rt.settings ≡ false)
          × (rt'.engine ≡ rt.engine)
          × (rt'.proxy ≡ rt.proxy)
          × (rt'.provider_secrets ≡ rt.provider_secrets))

  -- The new settings are in memory and in the file, with the engine for them, and one event is sent.
  pub record Committed (change : SettingsChange) (next : Settings) (rt rt' : Runtime P)
      : Type 0 where
    pub settings : rt'.settings ≡ next
    pub file : rt'.file.destination ≡ some (document (encode next))
    pub events : rt'.events ≡ rt.events ++ change ∷ []
    pub engine : EngineOf rt rt'

  module _ {T : Type 0} (change : SettingsChange) (a : Attempt) (rt : Runtime P) where
    -- `Ok` with the settings that are stored, or an error with nothing changed
    abbrev pub Stored : T → Settings → Result T × Runtime P → Type 0
    Stored result next (ok v, rt') = (v ≡ result) × Committed change next rt rt'
    Stored result next (err e, rt') = Unchanged rt rt'

    saved-Stored :
        (result : T) (next : Settings) (p : Result (Unit {0}) × Directory Contents)
        → engine_changed next rt.settings ≡ false
        → Saved next rt.file p
        → Stored result next (saved build_provider r change a result next rt p)
    saved-Stored result next (ok _, file) same s = (
      refl,
      record { settings = refl; file = s; events = refl; engine = inr (same, refl, refl, refl) },
    )
    saved-Stored result next (err e, file) same s = record {
      settings = refl;
      engine = refl;
      secrets = refl;
      proxy = refl;
      events = refl;
      file = s;
    }

    saved_engine-Stored :
        (result : T) (next : Settings) (engine : Registry P) (proxy : NetworkProxyConfig)
        (p : Result (Unit {0}) × Directory Contents)
        → engine_changed next rt.settings ≡ true
        → IsConfigurable r rt.proxy
        → Built build_provider r next
            (retain_secrets next.providers rt.provider_secrets)
            rt.proxy
            (ok engine, proxy)
        → Saved next rt.file p
        → Stored result next (
            saved_engine build_provider r change a result next
              (retain_secrets next.providers rt.provider_secrets)
              engine
              proxy
              rt
              p)
    saved_engine-Stored result next engine proxy (ok _, file) other d (h, k, c) s = (
      refl,
      record { settings = refl; file = s; events = refl; engine = inl (other, h, k, c, refl) },
    )
    saved_engine-Stored result next engine proxy (err e, file) other d b s = record {
      settings = refl;
      engine = refl;
      secrets = refl;
      proxy = rw (configure-IsConfigurable r rt.proxy proxy d) refl;
      events = refl;
      file = s;
    }

    after_build-Stored :
        (result : T) (next : Settings) (p : Result (Registry P) × NetworkProxyConfig)
        → engine_changed next rt.settings ≡ true
        → IsConfigurable r rt.proxy
        → Built build_provider r next (retain_secrets next.providers rt.provider_secrets) rt.proxy p
        → Stored result next (
            after_build build_provider r change a result next
              (retain_secrets next.providers rt.provider_secrets)
              rt
              p)
    after_build-Stored result next (ok engine, proxy) other d b =
        saved_engine-Stored result next engine proxy (save a next rt.file) other d b
          (save-Saved a next rt.file)
    after_build-Stored result next (err e, proxy) other d b = record {
      settings = refl;
      engine = refl;
      secrets = refl;
      proxy = b;
      events = refl;
      file = refl;
    }

    store-Stored :
        (result : T) (next : Settings)
        → IsConfigurable r rt.proxy
        → Stored result next (store build_provider r change a result next rt)
    store-Stored result next d =
        let secrets = retain_secrets next.providers rt.provider_secrets in
        elim (Bool-cases (engine_changed next rt.settings)) [
          | inl other ↦ rw other (
              after_build-Stored result next
                (build_from_settings_with_secrets build_provider r next secrets rt.proxy) other d
                (build-Built build_provider r next secrets rt.proxy d))
          | inr same ↦
              rw same
                (saved-Stored result next (save a next rt.file) same (save-Saved a next rt.file))
        ]

    -- `Ok` with the result of the update, whose settings are stored with the time of the change, or
    -- an error with nothing changed
    abbrev pub Whole : Option ℕ → (Settings → Result (T × Settings)) → Result T × Runtime P → Type 0
    Whole clock update (err e, rt') = Unchanged rt rt'
    Whole clock update (ok v, rt') =
        (next : Settings) × (now : ℕ) × (clock ≡ some now)
        × (update rt.settings ≡ ok (v, next))
        × Committed change (record next { last_updated = now }) rt rt'

    Stored-Whole :
        (clock : Option ℕ) (update : Settings → Result (T × Settings)) (result : T)
        (next : Settings) (now : ℕ)
        → clock ≡ some now
        → update rt.settings ≡ ok (result, next)
        → (p : Result T × Runtime P) → Stored result (record next { last_updated = now }) p
        → Whole clock update p
    Stored-Whole clock update result next now at u (ok v, rt') (e, c) = (next, now, at, rw e u, c)
    Stored-Whole clock update result next now at u (err e, rt') c = c

    updated-Whole :
        (clock : Option ℕ) (update : Settings → Result (T × Settings)) (p : Result (T × Settings))
        → update rt.settings ≡ p
        → IsConfigurable r rt.proxy
        → Whole clock update (updated build_provider r change a clock rt p)
    updated-Whole (some now) update (ok (result, next)) u d =
        unfold touch_last_updated in
        Stored-Whole (some now) update result next now refl u
          (store build_provider r change a result (record next { last_updated = now }) rt)
          (store-Stored result (record next { last_updated = now }) d)
    updated-Whole none update (ok (result, next)) u d =
        unfold touch_last_updated in same-Unchanged rt
    updated-Whole clock update (err e) u d = same-Unchanged rt

    -- If a client can be built for the proxy in force, a change of the settings either returns an
    -- error and leaves the settings, the engine, the secrets, the proxy, the events and the settings
    -- file as they were, or returns the result of the update with its settings, stamped with the
    -- clock, in memory and in the file, one event sent, and the engine, the proxy and the secrets
    -- for them: newly built if the providers or the proxy differ, and else those of before.
    pub commit_settings-Whole :
        (clock : Option ℕ) (update : Settings → Result (T × Settings))
        → IsConfigurable r rt.proxy
        → Whole clock update (commit_settings build_provider r change clock a update rt)
    commit_settings-Whole clock update d =
        unfold commit_settings in updated-Whole clock update (update rt.settings) refl d
