-- ===== src/Settings/InStep.antt =====
-- Memory, file, engine and proxy are in step after a change of the settings.
use linguaray.Base.{
  ℕ, ◌≡◌, refl, ◌∙◌, inl, inr, ◌⊎◌, true, false, Option, some, arith, Text, same_iff,
}
use linguaray.Base.Maps.{HashMap}
use linguaray.Errors.{Result, ok, err}
use linguaray.Storage.{Attempt}
use linguaray.Network.{Reqwest}
use linguaray.Network.Configured.{IsConfigurable}
use linguaray.Engine.{ProviderConfig}
use linguaray.Settings.{ProviderConfigEntry, Settings}
use linguaray.Settings.Building.{proxy_config, engine_of}
use linguaray.Settings.Same.{same_map_trans, same_provider_trans}
use linguaray.Settings.State.{
  SettingsChange, document, encode, same_map, same_provider, engine_changed, Runtime,
  commit_settings,
}
use linguaray.Settings.Committed.{Unchanged, Committed, EngineOf, Whole, commit_settings-Whole}

-- Maps that are equal, or that the code's test takes for equal
abbrev pub Alike : HashMap ProviderConfigEntry → HashMap ProviderConfigEntry → Type 0
Alike a b = (a ≡ b) ⊎ (same_map same_provider a b ≡ true)

Alike-trans :
    (a b c : HashMap ProviderConfigEntry)
    → same_map same_provider a b ≡ true
    → Alike b c
    → Alike a c
Alike-trans a b c h (inl e) = inr (rw (← e) h)
Alike-trans a b c h (inr n) = inr (same_map_trans same_provider same_provider_trans a b c h n)

-- What it means that no new engine is needed
same_engine :
    (next current : Settings)
    → engine_changed next current ≡ false
    → (same_map same_provider next.providers current.providers ≡ true)
      × (proxy_config next.advanced ≡ proxy_config current.advanced)
unfolding engine_changed proxy_config
same_engine next current h = (
  ground arith,
  ground (
    arith,
    same_iff next.advanced.proxy_mode current.advanced.proxy_mode,
    same_iff next.advanced.proxy_url current.advanced.proxy_url,
    same_iff next.advanced.proxy_bypass current.advanced.proxy_bypass,
  ),
)

module _ {P : Type 0} (build_provider : Text → ProviderConfig → Result P) (r : Reqwest) where
  -- The file holds the settings; the engine is built from providers that the code takes for equal
  -- to theirs, with the secrets of the state; the proxy is the one they name, and a client can be
  -- built for it.
  pub record InStep (rt : Runtime P) : Type 0 where
    pub file : rt.file.destination ≡ some (document (encode rt.settings))
    pub engine :
        (used : HashMap ProviderConfigEntry) × Alike rt.settings.providers used
        × (engine_of build_provider used rt.provider_secrets ≡ ok rt.engine)
    pub proxy : proxy_config rt.settings.advanced ≡ ok rt.proxy
    pub configurable : IsConfigurable r rt.proxy

  Unchanged-InStep :
      {rt rt' : Runtime P} → InStep rt → Unchanged build_provider r rt rt' → InStep rt'
  Unchanged-InStep {rt} {rt'} s u = record {
    file = rw (u.file, u.settings) s.file;
    engine =
        let (used, alike, built) = s.engine in
        (used, rw u.settings alike, rw (u.secrets, u.engine) built);
    proxy = rw (u.settings, u.proxy) s.proxy;
    configurable = rw u.proxy s.configurable;
  }

  engine-InStep :
      (rt rt' : Runtime P)
      → InStep rt
      → EngineOf build_provider r rt rt'
      → ((used : HashMap ProviderConfigEntry) × Alike rt'.settings.providers used
          × (engine_of build_provider used rt'.provider_secrets ≡ ok rt'.engine))
        × (proxy_config rt'.settings.advanced ≡ ok rt'.proxy)
        × IsConfigurable r rt'.proxy
  engine-InStep rt rt' s (inl (other, built, proxy, c, kept)) =
      ((rt'.settings.providers, inl refl, built), proxy, c)
  engine-InStep rt rt' s (inr (unchanged, engine, proxy, secrets)) =
      let (alike, config) = same_engine rt'.settings rt.settings unchanged in
      let (used, alike', built) = s.engine in
      (
        (
          used,
          Alike-trans rt'.settings.providers rt.settings.providers used alike alike',
          rw (secrets, engine) built,
        ),
        rw proxy (config ∙ s.proxy),
        rw proxy s.configurable,
      )

  Committed-InStep :
      {change : SettingsChange} {next : Settings} {rt rt' : Runtime P}
      → InStep rt
      → Committed build_provider r change next rt rt'
      → InStep rt'
  Committed-InStep {change} {next} {rt} {rt'} s c =
      let (engine, proxy, configurable) = engine-InStep rt rt' s c.engine in
      record {
        file = rw c.settings c.file;
        engine = engine;
        proxy = proxy;
        configurable = configurable;
      }

  Whole-InStep :
      {T : Type 0} (change : SettingsChange) (a : Attempt) (rt : Runtime P) (clock : Option ℕ)
      (update : Settings → Result (T × Settings)) (p : Result T × Runtime P)
      → InStep rt
      → Whole build_provider r change a rt clock update p
      → InStep p.1
  Whole-InStep change a rt clock update (err e, rt') s u = Unchanged-InStep s u
  Whole-InStep change a rt clock update (ok v, rt') s (next, now, at, from, c) =
      Committed-InStep s c

  pub commit_settings-InStep :
      {T : Type 0} (change : SettingsChange) (clock : Option ℕ) (a : Attempt)
      (update : Settings → Result (T × Settings)) (rt : Runtime P)
      → InStep rt
      → InStep (commit_settings build_provider r change clock a update rt).1
  commit_settings-InStep change clock a update rt s =
      Whole-InStep change a rt clock update
        (commit_settings build_provider r change clock a update rt) s
        (commit_settings-Whole build_provider r change a rt clock update s.configurable)
