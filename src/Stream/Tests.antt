-- ===== src/Stream/Tests.antt =====
-- Runs of the decoder, and its theorem at a concrete stream.
use linguaray.Base.{
  true, List, any, some, trim_start, trim_end, is_white, starts_with, ascii_lower, trim_end_matches,
  ◌≡◌, refl, false, none, some, [], ◌∷◌, ◌++◌, Text, codes, same, trim,
}
use linguaray.Base.Utf8.{from_utf8}
use linguaray.Stream.{
  ollama, StreamChunk, SerdeJson, Decoder, new_decoder, delivered, refused, invalid_utf8, emit,
}
use linguaray.Stream.Decoding.{
  push, drain, line_text, record_text, dispatch_format, ollama_line, error_of,
}
use linguaray.Stream.Packets.{joined, push-joined}
use linguaray.Stream.Receiving.{
  Arrival, packet, failed, receive, receive_loop, send_packet, send_end, send_failure, send_error,
  send_all, error_chunk,
}
use linguaray.Stream.Reports.{has_reason}
use linguaray.Stream.Delivery.{receive-reason}
use linguaray.Urls.{skip_while}
use linguaray.Urls.Redaction.{
  redact_secrets, replace_secrets, replace, redact_bearer, bearer_loop, names_token,
  redact_query_key, query_loop, split_first, truncate_error_body,
}

-- JSON whose values are their texts: every string reads as the whole of it, nothing else is there.
abbrev plain : SerdeJson
plain = record {
  Value = Text;
  from_str = some;
  get = λ v key. none;
  at = λ v key. v;
  is_null = λ v. false;
  as_str = some;
  as_u64 = λ v. none;
  as_bool = λ v. none;
  as_array = λ v. none;
}

abbrev chunk : Text → StreamChunk
chunk content = record { content = content; index = 0; finish_reason = none }

abbrev started : Decoder
started = new_decoder ollama

abbrev halfway : Decoder
halfway = record started { bytes = codes "c" }

-- The first line is complete in the first packet, the second one in the second packet.
push-joined_example :
    push plain (codes "ab\nc" ++ codes "d\n") started
    ≡ joined (chunk (codes "ab") ∷ []) (push plain (codes "d\n") halfway)
unfolding push drain line_text record_text dispatch_format ollama_line error_of emit trim
    trim_end_matches from_utf8 same
push-joined_example =
    push-joined plain (codes "ab\nc") (codes "d\n") started halfway (chunk (codes "ab") ∷ []) refl
      refl (λ h. cc h)

both_lines :
    push plain (codes "ab\nc" ++ codes "d\n") started
    ≡ (delivered (chunk (codes "ab") ∷ chunk (codes "cd") ∷ []), started)
unfolding push drain line_text record_text dispatch_format ollama_line error_of emit trim
    trim_end_matches from_utf8 same
both_lines = refl

-- What comes before a line that is not UTF-8, in one packet, is not recovered.
not_recovered :
    push plain (codes "ab\n" ++ 0xff ∷ 10 ∷ []) started ≡ (refused invalid_utf8, started)
unfolding push drain line_text record_text dispatch_format ollama_line error_of emit trim
    trim_end_matches from_utf8 same
not_recovered = refl

-- Three bytes of one character.
three_bytes : from_utf8 (0xe4 ∷ 0xbd ∷ 0xa0 ∷ []) ≡ some (0x4f60 ∷ [])
unfolding from_utf8
three_bytes = refl

-- A surrogate is not well formed.
surrogate : from_utf8 (0xed ∷ 0xa0 ∷ 0x80 ∷ []) ≡ none
unfolding from_utf8
surrogate = refl

-- One line, and then the connection breaks off.
abbrev arrivals : List Arrival
arrivals = packet (codes "ab\nc") ∷ failed (codes "key=1 lost") ∷ []

broken_off :
    receive (λ n. true) [] plain ollama arrivals
    ≡ chunk (codes "ab")
      ∷ record {
        content = codes "key=[redacted] lost";
        index = 0;
        finish_reason = some (codes "error");
      }
      ∷ []
unfolding receive receive_loop send_packet send_end send_failure send_error send_all error_chunk
    push drain line_text record_text dispatch_format ollama_line error_of emit trim trim_start
    trim_end is_white trim_end_matches from_utf8 same redact_secrets replace_secrets replace
    redact_bearer bearer_loop names_token redact_query_key query_loop split_first
    truncate_error_body starts_with ascii_lower skip_while
broken_off = refl

receive-reason_example : any has_reason (receive (λ n. true) [] plain ollama arrivals) ≡ true
receive-reason_example = receive-reason (λ n. true) (λ n. refl) [] plain ollama arrivals
