-- ===== src/Api/Server.antt =====
-- `dispatch` and what it calls. A response has its data in place of the JSON of the data. The JSON
-- of the requests, the services and the OpenAPI file are parameters.
use Prim.Native.Nat.{◌*◌}
use linguaray.Base.{
  ℕ, Bool, true, false, ◌||◌, Option, none, some, List, [], ◌∷◌, ◌++◌, ltb, if◌then◌else◌, is_empty,
  Text, codes, same, trim,
}
use linguaray.Base.Utf8.{from_utf8}
use linguaray.Urls.Redaction.{byte_length}
use linguaray.Api.{
  ApiError, Answer, success, failure, bad_request, internal, not_found, method_not_allowed,
  from_engine_error, from_capability_error,
}
use linguaray.Api.Requests.{
  translate_request, detect_language_request, lookup_request, path_prefix, required,
}
use linguaray.Api.Reading.{HttpRequest}
use linguaray.Api.Services.{
  Parsed, parsed, malformed, Runtime, block_on_api, api_translate, api_detect_language,
  api_supported_language_pairs, api_lookup,
}
use linguaray.Api.Routes.{
  ExternalActionKind, ExternalActionRequest, translate_text, Route, text_route, action_route,
  index_route, health_route, openapi_route, reference_route, routes, route_of, route_provider,
}

abbrev pub max_action_text_bytes : ℕ
max_action_text_bytes = 32 * 1024

pub data Body (T D L P : Type 0) : Type 0 where
  no_body accepted healthy openapi_document reference_html : Body T D L P
  index_of : Text → Body T D L P
  translations : T → Body T D L P
  detections : D → Body T D L P
  lookups : L → Body T D L P
  language_pairs : P → Body T D L P
  problem : ApiError → Body T D L P

pub record HttpResponse (T D L P : Type 0) : Type 0 where
  pub status : ℕ
  pub body : Body T D L P

-- A response, and the actions that are sent to the subscribers
abbrev pub Answered : Type 0 → Type 0 → Type 0 → Type 0 → Type 0
Answered T D L P = HttpResponse T D L P × List ExternalActionRequest

-- `if let Some(provider) = route_provider(..)`, and what follows if there is none
abbrev pub if_provider {ℓ} : {A : Type ℓ} → Option Text → (Text → A) → Option A → Option A
if_provider (some provider) handler others = some (handler provider)
if_provider none handler others = others

module _ {T D L P : Type 0} where
  abbrev pub json_ok : Body T D L P → HttpResponse T D L P
  json_ok body = record { status = 200; body = body }

  abbrev pub json_error : ApiError → HttpResponse T D L P
  json_error e = record { status = e.status; body = problem e }

  abbrev pub answer_with {ℓ} : {A : Type ℓ} → (A → Body T D L P) → Answer A → HttpResponse T D L P
  answer_with body (success a) = json_ok (body a)
  answer_with body (failure e) = json_error e

  -- `accept_action`: the response, and the action that is sent to the subscribers
  abbrev pub accept_action : ExternalActionKind → Option Text → Answered T D L P
  accept_action kind content =
      (record { status = 202; body = accepted }, record { kind = kind; content = content } ∷ [])

  abbrev pub rejected : ApiError → Answered T D L P
  rejected e = (json_error e, [])

  abbrev pub accept_text : Text → Answered T D L P
  accept_text raw =
      let text = trim raw in
      if is_empty text
      then rejected (required (codes "`text` is required"))
      else if ltb max_action_text_bytes (byte_length text)
      then rejected (bad_request (codes "PAYLOAD_TOO_LARGE") (codes "action text exceeds 32 KiB"))
      else accept_action translate_text (some text)

  abbrev pub accept_parsed : Parsed Text → Answered T D L P
  accept_parsed (malformed error) = rejected (bad_request (codes "INVALID_JSON") error)
  accept_parsed (parsed text) = accept_text text

  abbrev pub accept_decoded : ApiError → Option Text → Answered T D L P
  accept_decoded error none = rejected error
  accept_decoded error (some text) = accept_text text

  abbrev pub serve_openapi : Option Text → Answered T D L P
  serve_openapi none = (json_ok openapi_document, [])
  serve_openapi (some error) =
      rejected (
        internal (codes "INTERNAL_OPENAPI_ERROR") (codes "Failed to parse openapi.yaml: " ++ error))

  -- `with_json_body`
  abbrev pub with_json_body {ℓ κ} :
      {A : Type ℓ} {B : Type κ}
      → Parsed A
      → (B → Body T D L P)
      → (A → Answer B)
      → HttpResponse T D L P
  with_json_body (malformed error) body handler =
      json_error (bad_request (codes "INVALID_JSON") error)
  with_json_body (parsed a) body handler = answer_with body (handler a)

  abbrev pub no_route : Text → HttpResponse T D L P
  no_route method =
      if same method (codes "GET") || same method (codes "POST") || same method (codes "OPTIONS")
      then json_error (not_found (codes "Route not found"))
      else json_error (method_not_allowed (codes "Method not allowed"))

  abbrev pub response_or :
      Option (HttpResponse T D L P) → HttpResponse T D L P → HttpResponse T D L P
  response_or (some response) others = response
  response_or none others = others

  module _ (runtime : Runtime T D L P) where
    unfoldable pub dispatch_text_action : List ℕ → Bool → Answered T D L P
    unfolding trim
    dispatch_text_action body true = accept_parsed (runtime.text_action body)
    dispatch_text_action body false =
        accept_decoded (bad_request (codes "INVALID_REQUEST") (runtime.utf8_error body))
          (from_utf8 body)

    abbrev pub translate_route : HttpRequest → Text → HttpResponse T D L P
    translate_route r id =
        with_json_body (runtime.translate_body r.body) translations
          (λ b. block_on_api runtime (api_translate runtime id b))

    abbrev pub detect_route : HttpRequest → Text → HttpResponse T D L P
    detect_route r id =
        with_json_body (runtime.detect_body r.body) detections
          (λ b. block_on_api runtime (api_detect_language runtime id b))

    abbrev pub lookup_route : HttpRequest → Text → HttpResponse T D L P
    lookup_route r id =
        with_json_body (runtime.lookup_body r.body) lookups
          (λ b. block_on_api runtime (api_lookup runtime id b))

    abbrev pub pairs_route : Text → HttpResponse T D L P
    pairs_route id =
        answer_with language_pairs (block_on_api runtime (api_supported_language_pairs runtime id))

    -- The three routes of a `POST`, in their order
    abbrev pub post_route : HttpRequest → Option (HttpResponse T D L P)
    post_route r =
        if_provider (route_provider r.path (codes "/translations/") (codes "/translate"))
          (translate_route r)
          (if_provider (route_provider r.path (codes "/translations/") (codes "/detect-language"))
            (detect_route r)
            (if_provider (route_provider r.path (codes "/dictionaries/") (codes "/lookup"))
              (lookup_route r) none))

    abbrev pub get_route : HttpRequest → Option (HttpResponse T D L P)
    get_route r =
        if_provider
          (route_provider r.path (codes "/translations/") (codes "/supported-language-pairs"))
          pairs_route none

    unfoldable pub dispatch_provider_route : HttpRequest → HttpResponse T D L P
    unfolding same route_provider translate_request detect_language_request lookup_request
        from_engine_error from_capability_error
    dispatch_provider_route r =
        response_or (if same r.method (codes "POST") then post_route r else none) (
          response_or (if same r.method (codes "GET") then get_route r else none)
            (no_route r.method))

    unfoldable pub serve_route : HttpRequest → Route → Answered T D L P
    unfolding dispatch_text_action path_prefix
    serve_route r (text_route json) = dispatch_text_action r.body json
    serve_route r (action_route kind) = accept_action kind none
    serve_route r index_route =
        (json_ok (index_of (path_prefix (codes "/") ++ codes "/reference")), [])
    serve_route r health_route = (json_ok healthy, [])
    serve_route r openapi_route = serve_openapi runtime.openapi_error
    serve_route r reference_route = (record { status = 200; body = reference_html }, [])

    abbrev pub serve_or : HttpRequest → Option Route → Answered T D L P
    serve_or r (some route) = serve_route r route
    serve_or r none = (dispatch_provider_route r, [])

    unfoldable pub dispatch : HttpRequest → Answered T D L P
    unfolding same route_of serve_route dispatch_provider_route
    dispatch r =
        if same r.method (codes "OPTIONS")
        then (record { status = 204; body = no_body }, [])
        else serve_or r (route_of r.method r.path routes)
