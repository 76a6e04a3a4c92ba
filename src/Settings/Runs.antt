-- ===== src/Settings/Runs.antt =====
-- Memory, file, engine and proxy stay in step over any run of calls, and a restart reads the
-- settings back.
use linguaray.Base.{ℕ, ◌≡◌, refl, inl, inr, Bool, true, Option, List, Text, Bool-cases, codes}
use linguaray.Base.Maps.{HashMap, contains_key}
use linguaray.Errors.{Result, ok, err}
use linguaray.Storage.{Attempt}
use linguaray.Network.{NetworkProxyConfig, Reqwest}
use linguaray.Engine.{ProviderConfig, Registry}
use linguaray.Settings.{
  GeneralSettings, AppearanceSettings, ShortcutSettings, AdvancedSettings, ServiceType,
}
use linguaray.Settings.Building.{Secrets, build_from_settings_with_secrets}
use linguaray.Settings.Kept.{AllPlain, reread, deserialize-serialize}
use linguaray.Settings.Operations.{
  Capabilities, and_then, update_section, update_general, update_appearance, update_shortcuts,
  update_advanced, reset_shortcuts, set_translation_service_order, update_provider, delete_provider,
  delete_service, update_service, set_provider_secrets, rebuilt, with_id, with_secrets,
  clean_secrets, validate_provider_id, validate_required, check_service,
}
use linguaray.Settings.Mapping.{parse_provider_type}
use linguaray.Settings.Built.{Built, build-Built}
use linguaray.Settings.State.{
  general, appearance, shortcuts, advanced, providers, encode, decode, load, Runtime,
}
use linguaray.Settings.InStep.{InStep, commit_settings-InStep}

module _ {P : Type 0} (build_provider : Text → ProviderConfig → Result P) (r : Reqwest) where
  -- One call of a method, errors included; of `set_provider_secrets`, one that returns `Ok`.
  pub data Step (rt : Runtime P) : Runtime P → Type 0 where
    general_updated :
        (clock : Option ℕ) (a : Attempt) (patch : GeneralSettings → GeneralSettings)
        → Step rt (update_general build_provider r clock a patch rt).1
    appearance_updated :
        (clock : Option ℕ) (a : Attempt) (patch : AppearanceSettings → AppearanceSettings)
        → Step rt (update_appearance build_provider r clock a patch rt).1
    shortcuts_updated :
        (clock : Option ℕ) (a : Attempt) (patch : ShortcutSettings → ShortcutSettings)
        → Step rt (update_shortcuts build_provider r clock a patch rt).1
    advanced_updated :
        (clock : Option ℕ) (a : Attempt) (patch : AdvancedSettings → AdvancedSettings)
        → Step rt (update_advanced build_provider r clock a patch rt).1
    shortcuts_reset :
        (clock : Option ℕ) (a : Attempt) → Step rt (reset_shortcuts build_provider r clock a rt).1
    order_set :
        (clock : Option ℕ) (a : Attempt) (order : List Text)
        → Step rt (set_translation_service_order build_provider r clock a order rt).1
    provider_updated :
        (clock : Option ℕ) (a : Attempt) (now : Option ℕ) (id kind : Text) (fields : HashMap Text)
        (preset : Option Text)
        → Step rt (update_provider build_provider r clock a now id kind fields preset rt).1
    provider_deleted :
        (clock : Option ℕ) (a : Attempt) (id : Text)
        → Step rt (delete_provider build_provider r clock a id rt).1
    service_updated :
        (clock : Option ℕ) (a : Attempt) (c : Capabilities P) (macos : Bool) (now : Option ℕ)
        (id provider_id : Text) (kind : ServiceType) (name : Text) (fields : HashMap Text)
        → Step rt
            (update_service build_provider r clock a c macos now id provider_id kind name fields
              rt).1
    service_deleted :
        (clock : Option ℕ) (a : Attempt) (id : Text)
        → Step rt (delete_service build_provider r clock a id rt).1
    secrets_set :
        (id : Text) (secrets : HashMap Text)
        → (set_provider_secrets build_provider r id secrets rt).0 ≡ ok tt
        → Step rt (set_provider_secrets build_provider r id secrets rt).1

  pub data Run (rt : Runtime P) : Runtime P → Type 0 where
    here : Run rt rt
    next : {rt' rt'' : Runtime P} → Run rt rt' → Step rt' rt'' → Run rt rt''

  and_then-InStep :
      {A T : Type 0} (clock : Option ℕ) (a : Attempt) (v : Result A) (rt : Runtime P)
      (k : A → Result T × Runtime P)
      → InStep build_provider r rt
      → ((x : A) → InStep build_provider r (k x).1)
      → InStep build_provider r (and_then build_provider r clock a v rt k).1
  and_then-InStep clock a (ok x) rt k s h = h x
  and_then-InStep clock a (err e) rt k s h = s

  -- A secret is taken over with the engine that is built with it.
  rebuilt-InStep :
      (rt : Runtime P) (kept : Secrets) (p : Result (Registry P) × NetworkProxyConfig)
      → InStep build_provider r rt
      → Built build_provider r rt.settings kept rt.proxy p
      → (rebuilt build_provider r (record rt { provider_secrets = kept }) p).0 ≡ ok tt
      → InStep build_provider r
          (rebuilt build_provider r (record rt { provider_secrets = kept }) p).1
  rebuilt-InStep rt kept (ok engine, proxy) s (b, p, c) h = record {
    file = s.file;
    engine = (rt.settings.providers, inl refl, b);
    proxy = p;
    configurable = c;
  }
  rebuilt-InStep rt kept (err e, proxy) s b h = cc

  with_id-InStep :
      (v : Result Text) (secrets : HashMap Text) (rt : Runtime P)
      → InStep build_provider r rt
      → (with_id build_provider r v secrets rt).0 ≡ ok tt
      → InStep build_provider r (with_id build_provider r v secrets rt).1
  with_id-InStep (err e) secrets rt s h = s
  with_id-InStep (ok id) secrets rt s h =
      let kept = with_secrets build_provider r id (clean_secrets secrets) rt.provider_secrets in
      elim (Bool-cases (contains_key id rt.settings.providers)) [
        | inl there ↦ rw there (
            rebuilt-InStep rt kept
              (build_from_settings_with_secrets build_provider r rt.settings kept rt.proxy) s
              (build-Built build_provider r rt.settings kept rt.proxy s.configurable)
              (rw there at h))
        | inr gone ↦ rw gone s
      ]

  Step-InStep :
      {rt rt' : Runtime P} → Step rt rt' → InStep build_provider r rt → InStep build_provider r rt'
  unfolding update_general update_appearance update_shortcuts update_advanced update_section
      reset_shortcuts set_translation_service_order update_provider delete_provider update_service
      delete_service set_provider_secrets
  Step-InStep {rt} (general_updated clock a patch) s =
      commit_settings-InStep build_provider r general clock a _ rt s
  Step-InStep {rt} (appearance_updated clock a patch) s =
      commit_settings-InStep build_provider r appearance clock a _ rt s
  Step-InStep {rt} (shortcuts_updated clock a patch) s =
      commit_settings-InStep build_provider r shortcuts clock a _ rt s
  Step-InStep {rt} (advanced_updated clock a patch) s =
      commit_settings-InStep build_provider r advanced clock a _ rt s
  Step-InStep {rt} (shortcuts_reset clock a) s =
      commit_settings-InStep build_provider r shortcuts clock a _ rt s
  Step-InStep {rt} (order_set clock a order) s =
      commit_settings-InStep build_provider r general clock a _ rt s
  Step-InStep {rt} (provider_updated clock a now id kind fields preset) s =
      and_then-InStep clock a (validate_provider_id id) rt _ s λ id.
        and_then-InStep clock a (validate_required (codes "provider_type") kind) rt _ s λ kind.
          and_then-InStep clock a (parse_provider_type kind) rt _ s
            λ kind. commit_settings-InStep build_provider r providers clock a _ rt s
  Step-InStep {rt} (provider_deleted clock a id) s =
      and_then-InStep clock a (validate_provider_id id) rt _ s
        λ id. commit_settings-InStep build_provider r providers clock a _ rt s
  Step-InStep {rt} (service_updated clock a c macos now id provider_id kind name fields) s =
      and_then-InStep clock a (validate_provider_id id) rt _ s λ id.
        and_then-InStep clock a (validate_provider_id provider_id) rt _ s λ provider_id.
          and_then-InStep clock a
            (check_service build_provider r clock a c macos provider_id kind rt) rt _ s
            λ _. commit_settings-InStep build_provider r providers clock a _ rt s
  Step-InStep {rt} (service_deleted clock a id) s =
      and_then-InStep clock a (validate_provider_id id) rt _ s
        λ id. commit_settings-InStep build_provider r providers clock a _ rt s
  Step-InStep {rt} (secrets_set id secrets h) s =
      with_id-InStep (validate_provider_id id) secrets rt s h

  -- After any run of calls the settings in memory are those in the file, the engine is built from
  -- providers that equal theirs and the secrets of the state, and the proxy is the one they name,
  -- if this was so before and every call of set_provider_secrets returns Ok.
  pub Run-InStep :
      {rt rt' : Runtime P} → InStep build_provider r rt → Run rt rt' → InStep build_provider r rt'
  Run-InStep s here = s
  Run-InStep s (next run step) = Step-InStep step (Run-InStep s run)

  -- What a restart loads
  pub load-InStep :
      (rt : Runtime P)
      → InStep build_provider r rt
      → AllPlain rt.settings.providers
      → load true rt.file ≡ ok (record rt.settings { providers = reread rt.settings.providers })
  unfolding load encode decode
  load-InStep rt s plain = rw (s.file, deserialize-serialize rt.settings.providers plain) refl

  -- From a state in step, any run of calls leaves one in step, if every call of set_provider_secrets
  -- returns Ok, and a restart reads its settings back, less the times at which providers were
  -- created, provided that the fields of each provider have keys apart, none of them `type`,
  -- `presetId` or an old spelling of a key.
  pub load_settings-Run :
      {rt rt' : Runtime P}
      → InStep build_provider r rt
      → Run rt rt'
      → AllPlain rt'.settings.providers
      → InStep build_provider r rt'
        × (load true rt'.file
            ≡ ok (record rt'.settings { providers = reread rt'.settings.providers }))
  load_settings-Run {rt} {rt'} s run plain =
      (Run-InStep s run, load-InStep rt' (Run-InStep s run) plain)
