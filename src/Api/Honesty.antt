-- ===== src/Api/Honesty.antt =====
-- An action is sent exactly with the answer 202, and never another than a route stands for.
use linguaray.Base.{refl, true, false, Option, none, some, if◌then◌else◌, Text, codes, same}
use linguaray.Base.Utf8.{from_utf8}
use linguaray.Api.{bad_request, translation_not_supported, dictionary_not_supported}
use linguaray.Api.Requests.{translate_request, detect_language_request, lookup_request}
use linguaray.Api.Reading.{HttpRequest}
use linguaray.Api.Services.{
  Served, TranslationService, Runtime, call_service, with_provider, with_translation, api_translate,
  api_detect_language, api_supported_language_pairs, api_lookup, block_on_api,
}
use linguaray.Api.Routes.{
  Route, text_route, action_route, index_route, health_route, openapi_route, reference_route,
  routes, route_of, route_provider,
}
use linguaray.Api.Server.{
  no_route, if_provider, post_route, get_route, translate_route, detect_route, lookup_route,
  pairs_route, translations, detections, lookups, language_pairs, response_or, dispatch_text_action,
  dispatch_provider_route, serve_route, serve_or, dispatch,
}
use linguaray.Api.Actions.{IsPlain, IsHonest, IsPlain-200, IsPlain-204, IsPlain-400, FailsPlain}
use linguaray.Api.Answers.{
  MaybePlain, call_service-FailsPlain, with_provider-FailsPlain, and_then-FailsPlain,
  build_or-FailsPlain, translate_request-FailsPlain, detect_language_request-FailsPlain,
  lookup_request-FailsPlain, answer_with-IsPlain, if_provider-MaybePlain, response_or-IsPlain,
  if-IsHonest, with_json_body-IsPlain, no_route-IsPlain, accept_parsed-IsHonest,
  accept_decoded-IsHonest, serve_openapi-IsHonest,
}

module _ {T D L P : Type 0} (runtime : Runtime T D L P) where
  with_translation-FailsPlain {ℓ} :
      {A : Type ℓ} (id : Text) (call : TranslationService T D P → Served A)
      → FailsPlain (with_translation runtime id call)
  with_translation-FailsPlain id call =
      with_provider-FailsPlain id (runtime.providers id) _
        (λ p. call_service-FailsPlain (translation_not_supported id) p.translation call)

  translate_route-IsPlain :
      (r : HttpRequest) (id : Text) → IsPlain (translate_route runtime r id).status
  translate_route-IsPlain r id =
      with_json_body-IsPlain (runtime.translate_body r.body) translations
        (λ b. block_on_api runtime (api_translate runtime id b))
        (λ b. build_or-FailsPlain runtime.build_error (api_translate runtime id b) (
          and_then-FailsPlain (translate_request b)
            (λ clean. with_translation runtime id (λ service. service.translate clean))
            (translate_request-FailsPlain b)
            (λ clean. with_translation-FailsPlain id (λ service. service.translate clean))))

  detect_route-IsPlain : (r : HttpRequest) (id : Text) → IsPlain (detect_route runtime r id).status
  detect_route-IsPlain r id =
      with_json_body-IsPlain (runtime.detect_body r.body) detections
        (λ b. block_on_api runtime (api_detect_language runtime id b))
        (λ b. build_or-FailsPlain runtime.build_error (api_detect_language runtime id b) (
          and_then-FailsPlain (detect_language_request b)
            (λ clean. with_translation runtime id (λ service. service.detect_language clean))
            (detect_language_request-FailsPlain b)
            (λ clean. with_translation-FailsPlain id (λ service. service.detect_language clean))))

  lookup_route-IsPlain : (r : HttpRequest) (id : Text) → IsPlain (lookup_route runtime r id).status
  lookup_route-IsPlain r id =
      with_json_body-IsPlain (runtime.lookup_body r.body) lookups
        (λ b. block_on_api runtime (api_lookup runtime id b))
        (λ b. build_or-FailsPlain runtime.build_error (api_lookup runtime id b) (
          and_then-FailsPlain (lookup_request b)
            (λ clean. with_provider id (runtime.providers id) (λ provider.
              call_service (dictionary_not_supported id) provider.dictionary
                (λ look_up. look_up clean)))
            (lookup_request-FailsPlain b)
            (λ clean.
              with_provider-FailsPlain id (runtime.providers id)
                (λ provider.
                  call_service (dictionary_not_supported id) provider.dictionary
                    (λ look_up. look_up clean))
                (λ p.
                  call_service-FailsPlain (dictionary_not_supported id) p.dictionary
                    (λ look_up. look_up clean)))))

  pairs_route-IsPlain : (id : Text) → IsPlain (pairs_route runtime id).status
  pairs_route-IsPlain id =
      answer_with-IsPlain language_pairs
        (block_on_api runtime (api_supported_language_pairs runtime id))
        (build_or-FailsPlain runtime.build_error (api_supported_language_pairs runtime id)
          (with_translation-FailsPlain id (λ service. service.get_supported_language_pairs)))

  post_route-MaybePlain : (r : HttpRequest) → MaybePlain (post_route runtime r)
  post_route-MaybePlain r =
      let lookup = route_provider r.path (codes "/dictionaries/") (codes "/lookup") in
      let detect = route_provider r.path (codes "/translations/") (codes "/detect-language") in
      let third = if_provider lookup (lookup_route runtime r) none in
      if_provider-MaybePlain (route_provider r.path (codes "/translations/") (codes "/translate"))
        (translate_route runtime r) (if_provider detect (detect_route runtime r) third)
        (translate_route-IsPlain r)
        (if_provider-MaybePlain detect (detect_route runtime r) third (detect_route-IsPlain r)
          (if_provider-MaybePlain lookup (lookup_route runtime r) none (lookup_route-IsPlain r) tt))

  get_route-MaybePlain : (r : HttpRequest) → MaybePlain (get_route runtime r)
  get_route-MaybePlain r =
      if_provider-MaybePlain
        (route_provider r.path (codes "/translations/") (codes "/supported-language-pairs"))
        (pairs_route runtime) none pairs_route-IsPlain tt

  dispatch_provider_route-IsPlain :
      (r : HttpRequest) → IsPlain (dispatch_provider_route runtime r).status
  unfolding dispatch_provider_route
  dispatch_provider_route-IsPlain r =
      let got = if same r.method (codes "GET") then get_route runtime r else none in
      response_or-IsPlain (same r.method (codes "POST")) (post_route runtime r)
        (response_or got (no_route r.method)) (post_route-MaybePlain r)
        (response_or-IsPlain (same r.method (codes "GET")) (get_route runtime r) (no_route r.method)
          (get_route-MaybePlain r) (no_route-IsPlain T D L P r.method))

  serve_route-IsHonest : (r : HttpRequest) (route : Route) → IsHonest (serve_route runtime r route)
  unfolding serve_route dispatch_text_action
  serve_route-IsHonest r (text_route true) =
      accept_parsed-IsHonest T D L P (runtime.text_action r.body)
  serve_route-IsHonest r (text_route false) =
      accept_decoded-IsHonest T D L P
        (bad_request (codes "INVALID_REQUEST") (runtime.utf8_error r.body)) (from_utf8 r.body)
        IsPlain-400
  serve_route-IsHonest r (action_route kind) = (refl, tt)
  serve_route-IsHonest r index_route = IsPlain-200
  serve_route-IsHonest r health_route = IsPlain-200
  serve_route-IsHonest r openapi_route = serve_openapi-IsHonest T D L P runtime.openapi_error
  serve_route-IsHonest r reference_route = IsPlain-200

  serve_or-IsHonest : (r : HttpRequest) (route : Option Route) → IsHonest (serve_or runtime r route)
  serve_or-IsHonest r (some route) = serve_route-IsHonest r route
  serve_or-IsHonest r none = dispatch_provider_route-IsPlain r

  -- Whatever the request and the services are: at most one action is sent, and it goes with the
  -- status 202; its text, if it has one, is trimmed, not empty and at most 32 KiB long. Without an
  -- action the status is another one, and its reason phrase is OK only if it is 200.
  pub dispatch-IsHonest : (r : HttpRequest) → IsHonest (dispatch runtime r)
  unfolding dispatch
  dispatch-IsHonest r =
      if-IsHonest (same r.method (codes "OPTIONS")) _ _ (λ options. IsPlain-204)
        (λ other. serve_or-IsHonest r (route_of r.method r.path routes))
