-- ===== src/Stream/Receiving.antt =====
-- `receive` and `send_error`: the task that reads a response and sends its chunks.
use linguaray.Base.{
  ℕ, Bool, true, false, some, List, [], ◌∷◌, ◌++◌, if◌then◌else◌, length, Text, codes,
}
use linguaray.Stream.{
  WireFormat, StreamChunk, StreamError, SerdeJson, Decoder, Pushed, new_decoder, invalid_utf8,
  invalid_json, too_large, provider_error, delivered, refused,
}
use linguaray.Stream.Decoding.{push, end_stream}
use linguaray.Urls.Redaction.{redact_secrets, truncate_error_body}

-- What `bytes_stream` yields: bytes, or an error of the transport with its text.
pub data Arrival : Type 0 where
  packet : List ℕ → Arrival
  failed : Text → Arrival

-- The texts of the errors
abbrev pub message_of : StreamError → Text
message_of invalid_utf8 = codes "invalid UTF-8 stream"
message_of invalid_json = codes "invalid stream JSON"
message_of too_large = codes "stream record exceeds size limit"
message_of (provider_error text) = text

unfoldable pub error_chunk : Text → List Text → StreamChunk
unfolding redact_secrets truncate_error_body
error_chunk error secrets = record {
  content = truncate_error_body (redact_secrets error secrets);
  index = 0;
  finish_reason = some (codes "error");
}

module _ (alive : ℕ → Bool) where
  -- The sends of a row of chunks after `sent`, until the receiver is gone: `alive` is whether it
  -- is there after so many chunks.
  unfoldable pub send_all : List StreamChunk → List StreamChunk → Bool × List StreamChunk
  send_all sent [] = (true, sent)
  send_all sent (c ∷ cs) =
      let rest = send_all (sent ++ c ∷ []) cs in if alive (length sent) then rest else (false, sent)

  -- `send_error`, whose own result is of no account.
  unfoldable pub send_error : List StreamChunk → Text → List Text → List StreamChunk
  unfolding send_all error_chunk
  send_error sent error secrets = (send_all sent (error_chunk error secrets ∷ [])).1

  -- `recovered`, then the error
  unfoldable pub send_failure :
      List StreamChunk → List StreamChunk → Text → List Text → List StreamChunk
  unfolding send_error
  send_failure sent recovered error secrets =
      let s = send_all sent recovered in if s.0 then send_error s.1 error secrets else s.1

  module _ (secrets : List Text) where
    -- What is sent for the result of the end of the stream
    unfoldable pub send_end : Pushed × Decoder → List StreamChunk → List StreamChunk
    unfolding send_error
    send_end (refused e, d) sent = send_error sent (message_of e) secrets
    send_end (delivered chunks, d) sent =
        let s = send_all sent chunks in
        if s.0
        then if d.finished
          then s.1
          else send_error s.1 (codes "stream ended before completion") secrets
        else s.1

    -- What is sent for the result of a packet; `later` goes on with the next one.
    unfoldable pub send_packet :
        Pushed × Decoder
        → List StreamChunk
        → (Decoder → List StreamChunk → List StreamChunk)
        → List StreamChunk
    unfolding send_failure
    send_packet (refused e, d) sent later = send_failure sent d.recovered (message_of e) secrets
    send_packet (delivered chunks, d) sent later =
        let s = send_all sent chunks in if s.0 then if d.finished then s.1 else later d s.1 else s.1

    module _ (json : SerdeJson) where
      -- The loop over the packets; `sent` is what the receiver has been sent.
      unfoldable pub receive_loop : List Arrival → Decoder → List StreamChunk → List StreamChunk
      unfolding push end_stream send_end send_packet send_failure
      receive_loop [] d sent = send_end (end_stream json d) sent
      receive_loop (failed error ∷ rest) d sent = send_failure sent d.recovered error secrets
      receive_loop (packet bytes ∷ rest) d sent =
          send_packet (push json bytes d) sent (receive_loop rest)

      -- `receive`: every chunk that is sent
      unfoldable pub receive : WireFormat → List Arrival → List StreamChunk
      unfolding receive_loop
      receive format arrivals = receive_loop arrivals (new_decoder format) []
