-- ===== src/Settings/Secret.antt =====
-- What `set_provider_secrets` leaves behind when the engine cannot be built with the new secrets.
use linguaray.Base.{◌≡◌, refl, arith, true, false}
use linguaray.Base.{Text, is_empty, some}
use linguaray.Base.Maps.{HashMap, get, insert, contains_key, get-insert}
use linguaray.Base.{same_refl, ap, ◌∙◌}
use linguaray.Errors.{Error, Result, ok, err}
use linguaray.Network.{NetworkProxyConfig, Reqwest}
use linguaray.Engine.{ProviderConfig, Registry}
use linguaray.Settings.Building.{Secrets, build_from_settings_with_secrets}
use linguaray.Settings.State.{Runtime}
use linguaray.Settings.Operations.{
  set_provider_secrets, rebuilt, clean_secrets, validate_provider_id,
}

module _ {P : Type 0} (build_provider : Text → ProviderConfig → Result P) (r : Reqwest)
    (rt : Runtime P) where
  rebuilt_keeps :
      (kept : Secrets) (e : Error) (p : Result (Registry P) × NetworkProxyConfig)
      → p.0 ≡ err e
      → (rebuilt build_provider r (record rt { provider_secrets = kept }) p).0 ≡ err e
        × ((rebuilt build_provider r (record rt { provider_secrets = kept }) p).1.engine
            ≡ rt.engine)
        × ((rebuilt build_provider r (record rt { provider_secrets = kept }) p).1.provider_secrets
            ≡ kept)
  rebuilt_keeps kept e (ok engine, proxy) h = cc
  rebuilt_keeps kept e (err x, proxy) h = (ground arith, refl, refl)

  -- If no engine can be built with the secrets that are given for a provider of the settings, some of
  -- them usable, the call returns the error and the old engine stays, but the secrets are kept for
  -- that provider.
  pub set_provider_secrets-keeps_rejected :
      (id trimmed : Text) (secrets : HashMap Text) (e : Error)
      → validate_provider_id id ≡ ok trimmed
      → contains_key trimmed rt.settings.providers ≡ true
      → is_empty (clean_secrets secrets) ≡ false
      → (build_from_settings_with_secrets build_provider r rt.settings
          (insert trimmed (clean_secrets secrets) rt.provider_secrets)
          rt.proxy).0
        ≡ err e
      → ((set_provider_secrets build_provider r id secrets rt).0 ≡ err e)
        × ((set_provider_secrets build_provider r id secrets rt).1.engine ≡ rt.engine)
        × (get trimmed (set_provider_secrets build_provider r id secrets rt).1.provider_secrets
            ≡ some (clean_secrets secrets))
  unfolding set_provider_secrets
  set_provider_secrets-keeps_rejected id trimmed secrets e v there full failed =
      let kept = insert trimmed (clean_secrets secrets) rt.provider_secrets in
      let (result, engine, secrets') =
        rebuilt_keeps kept e
          (build_from_settings_with_secrets build_provider r rt.settings kept rt.proxy) failed in
      rw (v, there, full)
        (
          result,
          engine,
          ap (get trimmed) secrets'
              ∙ rw
                  (
                    get-insert trimmed trimmed (clean_secrets secrets) rt.provider_secrets,
                    same_refl trimmed,
                  )
                  refl,
        )
