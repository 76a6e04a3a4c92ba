-- ===== src/Api/Tests.antt =====
-- Runs of the server, and its theorems at concrete requests.
use linguaray.Base.{
  ℕ, ◌≡◌, refl, none, some, List, [], ◌∷◌, arith, codes, same, starts_with, trim, trim_start,
  trim_end, is_white, ascii_lower, eq_ignore_ascii_case,
}
use linguaray.Base.Utf8.{from_utf8}
use linguaray.Base.Lossy.{from_utf8_lossy}
use linguaray.Urls.{skip_while}
use linguaray.Api.Reading.{
  done, HttpRequest, find_header_end, lines, take_until, next_word, split_colon, digits_value,
  parse_usize, content_length_of, parse_headers, read_header, read_body, check_length, after_header,
  read_request,
}
use linguaray.Api.Chunks.{whole_request, joined, AreFull, arriving}
use linguaray.Api.Assembly.{read_request-whole}
use linguaray.Api.Services.{Runtime, parsed, malformed}
use linguaray.Api.Routes.{route_of, translate_text}
use linguaray.Api.Server.{dispatch, serve_route, dispatch_text_action, accepted}
use linguaray.Api.Actions.{IsHonest}
use linguaray.Api.Honesty.{dispatch-IsHonest}

-- The end of the headers is cut in two.
abbrev chunks : List (List ℕ)
chunks = codes "POST /a?b HTTP/1.1\r\nContent-Length: 2\r\n\r" ∷ codes "\nh" ∷ codes "i..." ∷ []

chunks-AreFull : AreFull chunks
chunks-AreFull = refl

header_end : find_header_end (joined chunks) ≡ some 37
unfolding find_header_end starts_with
header_end = refl

read_request-whole_example : read_request (arriving chunks) ≡ whole_request 37 (joined chunks)
read_request-whole_example = read_request-whole chunks 37 chunks-AreFull header_end (ground arith)

request_read :
    read_request (arriving chunks)
    ≡ done (record { method = codes "POST"; path = codes "/a"; body = codes "hi" })
unfolding read_request after_header read_header read_body check_length parse_headers
    content_length_of parse_usize digits_value split_colon next_word take_until lines
    find_header_end starts_with from_utf8_lossy skip_while trim trim_start trim_end is_white
    eq_ignore_ascii_case same ascii_lower
request_read = refl

-- No provider, and no body that is JSON.
abbrev runtime : Runtime ℕ ℕ ℕ ℕ
runtime = record {
  providers = λ id. none;
  text_action = λ body. malformed [];
  translate_body =
      λ body. parsed (record { source_language = none; target_language = none; content = body });
  detect_body = λ body. malformed [];
  lookup_body = λ body. malformed [];
  utf8_error = λ body. [];
  openapi_error = none;
  build_error = none;
}

abbrev text_request : HttpRequest
text_request = record { method = codes "POST"; path = codes "/"; body = codes " hi " }

text_accepted : dispatch runtime text_request ≡ (
  record { status = 202; body = accepted },
  record { kind = translate_text; content = some (codes "hi") } ∷ [],
)
unfolding dispatch serve_route dispatch_text_action route_of same from_utf8 trim trim_start trim_end
    is_white
text_accepted = refl

dispatch-IsHonest_example : IsHonest (dispatch runtime text_request)
dispatch-IsHonest_example = dispatch-IsHonest runtime text_request
