-- ===== src/Api/Answers.antt =====
-- The parts of an answer and their statuses.
use linguaray.Base.{
  ◌≡◌, refl, Bool, true, false, not, ◌||◌, Option, none, some, List, arith, ltb, if◌then◌else◌,
  is_empty, retain, map, Text, codes, same, trim, trim_idem,
}
use linguaray.Urls.Redaction.{byte_length}
use linguaray.Api.{ApiError, EngineError, Answer, success, failure, unknown_provider}
use linguaray.Api.Requests.{
  TranslateRequest, LookUpRequest, translate_request, detect_language_request, lookup_request,
}
use linguaray.Api.Services.{
  Parsed, parsed, malformed, Served, Provider, call_service, with_provider, and_then, build_or,
}
use linguaray.Api.Server.{
  Body, HttpResponse, Answered, answer_with, accept_text, accept_parsed, accept_decoded,
  serve_openapi, with_json_body, no_route, if_provider, response_or, max_action_text_bytes,
}
use linguaray.Api.Actions.{
  IsPlain, IsHonest, IsPlain-200, IsPlain-400, IsPlain-404, IsPlain-405, IsPlain-500, FailsPlain,
  answer_of-FailsPlain, from_engine_error-IsPlain,
}

pub call_service-FailsPlain {ℓ κ} :
    {A : Type ℓ} {S : Type κ} (missing : EngineError) (service : Option S) (call : S → Served A)
    → FailsPlain (call_service missing service call)
call_service-FailsPlain missing none call = from_engine_error-IsPlain missing
call_service-FailsPlain missing (some service) call = answer_of-FailsPlain (call service)

pub with_provider-FailsPlain {ℓ} :
    {A : Type ℓ} {T D L P : Type 0} (id : Text) (provider : Option (Provider T D L P))
    (use_provider : Provider T D L P → Answer A)
    → ((p : Provider T D L P) → FailsPlain (use_provider p))
    → FailsPlain (with_provider id provider use_provider)
with_provider-FailsPlain id none use_provider h = from_engine_error-IsPlain (unknown_provider id)
with_provider-FailsPlain id (some p) use_provider h = h p

pub and_then-FailsPlain {ℓ κ} :
    {A : Type ℓ} {B : Type κ} (a : Answer A) (next : A → Answer B)
    → FailsPlain a
    → ((x : A) → FailsPlain (next x))
    → FailsPlain (and_then a next)
and_then-FailsPlain (failure e) next h k = h
and_then-FailsPlain (success a) next h k = k a

pub build_or-FailsPlain {ℓ} :
    {A : Type ℓ} (error : Option Text) (a : Answer A) → FailsPlain a → FailsPlain (build_or error a)
build_or-FailsPlain none a h = h
build_or-FailsPlain (some error) a h = IsPlain-500

pub if-FailsPlain {ℓ} :
    {A : Type ℓ} (b : Bool) (e : ApiError) (a : A)
    → IsPlain e.status
    → FailsPlain (if b then failure e else success a)
if-FailsPlain true e a h = h
if-FailsPlain false e a h = tt

pub translate_request-FailsPlain : (r : TranslateRequest) → FailsPlain (translate_request r)
unfolding translate_request
translate_request-FailsPlain r = if-FailsPlain (is_empty (trim r.content)) _ _ IsPlain-400

pub detect_language_request-FailsPlain :
    (texts : List Text) → FailsPlain (detect_language_request texts)
unfolding detect_language_request
detect_language_request-FailsPlain texts =
    if-FailsPlain (is_empty (retain (λ t. not (is_empty t)) (map trim texts))) _ _ IsPlain-400

pub lookup_request-FailsPlain : (r : LookUpRequest) → FailsPlain (lookup_request r)
unfolding lookup_request
lookup_request-FailsPlain r = if-FailsPlain (is_empty (trim r.word)) _ _ IsPlain-400

module _ {T D L P : Type 0} where
  -- The response, if there is one, has a plain status.
  abbrev pub MaybePlain : Option (HttpResponse T D L P) → Type 0
  MaybePlain none = Unit
  MaybePlain (some response) = IsPlain response.status

  pub answer_with-IsPlain {ℓ} :
      {A : Type ℓ} (body : A → Body T D L P) (a : Answer A)
      → FailsPlain a
      → IsPlain (answer_with body a).status
  answer_with-IsPlain body (success a) h = IsPlain-200
  answer_with-IsPlain body (failure e) h = h

  pub if_provider-MaybePlain :
      (provider : Option Text) (handler : Text → HttpResponse T D L P)
      (others : Option (HttpResponse T D L P))
      → ((id : Text) → IsPlain (handler id).status)
      → MaybePlain others
      → MaybePlain (if_provider provider handler others)
  if_provider-MaybePlain (some id) handler others h k = h id
  if_provider-MaybePlain none handler others h k = k

  pub response_or-IsPlain :
      (test : Bool) (response : Option (HttpResponse T D L P)) (others : HttpResponse T D L P)
      → MaybePlain response
      → IsPlain others.status
      → IsPlain (response_or (if test then response else none) others).status
  response_or-IsPlain true (some response) others h k = h
  response_or-IsPlain true none others h k = k
  response_or-IsPlain false response others h k = k

  pub if-IsPlain :
      (b : Bool) (x y : HttpResponse T D L P)
      → IsPlain x.status
      → IsPlain y.status
      → IsPlain (if b then x else y).status
  if-IsPlain true x y h k = h
  if-IsPlain false x y h k = k

  pub if-IsHonest :
      (b : Bool) (x y : Answered T D L P)
      → (b ≡ true → IsHonest x)
      → (b ≡ false → IsHonest y)
      → IsHonest (if b then x else y)
  if-IsHonest true x y h k = h refl
  if-IsHonest false x y h k = k refl

  pub with_json_body-IsPlain {ℓ κ} :
      {A : Type ℓ} {B : Type κ} (body : Parsed A) (data_of : B → Body T D L P)
      (handler : A → Answer B)
      → ((a : A) → FailsPlain (handler a))
      → IsPlain (with_json_body body data_of handler).status
  with_json_body-IsPlain (malformed error) data_of handler h = IsPlain-400
  with_json_body-IsPlain (parsed a) data_of handler h =
      answer_with-IsPlain data_of (handler a) (h a)

pub no_route-IsPlain :
    (T D L P : Type 0) (method : Text)
    → IsPlain (no_route {T = T} {D = D} {L = L} {P = P} method).status
no_route-IsPlain T D L P method =
    if-IsPlain
      (same method (codes "GET") || same method (codes "POST") || same method (codes "OPTIONS")) _ _
      IsPlain-404 IsPlain-405

pub accept_text-IsHonest :
    (T D L P : Type 0) (raw : Text) → IsHonest (accept_text {T = T} {D = D} {L = L} {P = P} raw)
accept_text-IsHonest T D L P raw =
    if-IsHonest (is_empty (trim raw)) _ _ (λ blank. IsPlain-400)
      (λ solid.
        if-IsHonest (ltb max_action_text_bytes (byte_length (trim raw))) _ _ (λ long. IsPlain-400)
          (λ short. (refl, (trim_idem raw, solid, ground arith))))

pub accept_parsed-IsHonest :
    (T D L P : Type 0) (body : Parsed Text)
    → IsHonest (accept_parsed {T = T} {D = D} {L = L} {P = P} body)
accept_parsed-IsHonest T D L P (malformed error) = IsPlain-400
accept_parsed-IsHonest T D L P (parsed text) = accept_text-IsHonest T D L P text

pub accept_decoded-IsHonest :
    (T D L P : Type 0) (error : ApiError) (body : Option Text)
    → IsPlain error.status
    → IsHonest (accept_decoded {T = T} {D = D} {L = L} {P = P} error body)
accept_decoded-IsHonest T D L P error none h = h
accept_decoded-IsHonest T D L P error (some text) h = accept_text-IsHonest T D L P text

pub serve_openapi-IsHonest :
    (T D L P : Type 0) (error : Option Text)
    → IsHonest (serve_openapi {T = T} {D = D} {L = L} {P = P} error)
serve_openapi-IsHonest T D L P none = IsPlain-200
serve_openapi-IsHonest T D L P (some error) = IsPlain-500
