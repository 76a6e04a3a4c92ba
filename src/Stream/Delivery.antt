-- ===== src/Stream/Delivery.antt =====
-- Whoever waits for the chunks of a stream hears why it has ended.
use mathlib.Core.List.{append_assoc, append-nil}
use linguaray.Base.{
  ℕ, ◌≡◌, refl, sym, ap, ◌∙◌, Bool, true, false, List, [], ◌∷◌, ◌++◌, arith, any, any-append,
  if◌then◌else◌, Text, length, codes,
}
use linguaray.Stream.{
  WireFormat, StreamChunk, SerdeJson, Decoder, Pushed, delivered, refused, new_decoder,
}
use linguaray.Stream.Decoding.{push, end_stream}
use linguaray.Stream.Reports.{has_reason, Reports, push-Reports, end_stream-Reports}
use linguaray.Stream.Receiving.{
  Arrival, packet, failed, message_of, error_chunk, send_all, send_error, send_failure, send_end,
  send_packet, receive_loop, receive,
}

error_chunk-reason :
    (error : Text) (secrets : List Text) → has_reason (error_chunk error secrets) ≡ true
unfolding error_chunk
error_chunk-reason error secrets = refl

reason_if :
    (b : Bool) (x y : List StreamChunk)
    → (b ≡ true → any has_reason x ≡ true)
    → (b ≡ false → any has_reason y ≡ true)
    → any has_reason (if b then x else y) ≡ true
reason_if true x y h k = h refl
reason_if false x y h k = k refl

module _ (alive : ℕ → Bool) (stays : (n : ℕ) → alive n ≡ true) where
  -- A receiver that stays is sent every chunk.
  send_all-stays : (sent cs : List StreamChunk) → send_all alive sent cs ≡ (true, sent ++ cs)
  unfolding send_all
  send_all-stays sent [] = ap (λ l. (true, l)) (sym (append-nil sent))
  send_all-stays sent (c ∷ cs) =
      rw (stays (length sent))
        (send_all-stays (sent ++ c ∷ []) cs ∙ ap (λ l. (true, l)) (append_assoc sent (c ∷ []) cs))

  -- An error has a reason.
  send_error-reason :
      (sent : List StreamChunk) (error : Text) (secrets : List Text)
      → any has_reason (send_error alive sent error secrets) ≡ true
  unfolding send_error
  send_error-reason sent error secrets =
      let c = error_chunk error secrets in
      ap (λ p. any has_reason p.1) (send_all-stays sent (c ∷ []))
      ∙ any-append has_reason sent (c ∷ [])
      ∙ ground (arith, error_chunk-reason error secrets)

  send_failure-reason :
      (sent recovered : List StreamChunk) (error : Text) (secrets : List Text)
      → any has_reason (send_failure alive sent recovered error secrets) ≡ true
  unfolding send_failure
  send_failure-reason sent recovered error secrets =
      rw (send_all-stays sent recovered) (send_error-reason (sent ++ recovered) error secrets)

  -- The result of a step of the decoder reports about it.
  abbrev ReportsResult : Decoder → Pushed × Decoder → Type 0
  ReportsResult before r =
      (e : Decoder) (cs : List StreamChunk) → r ≡ (delivered cs, e) → Reports before e cs

  delivered-reason :
      (before after : Decoder) (sent cs : List StreamChunk)
      → before.finished ≡ false
      → Reports before after cs
      → after.finished ≡ true
      → any has_reason (sent ++ cs) ≡ true
  delivered-reason before after sent cs goes reports over =
      any-append has_reason sent cs ∙ ground arith

  send_end-reason :
      (secrets : List Text) (before : Decoder) (r : Pushed × Decoder) (sent : List StreamChunk)
      → before.finished ≡ false
      → ReportsResult before r
      → any has_reason (send_end alive secrets r sent) ≡ true
  unfolding send_end
  send_end-reason secrets before (refused x, e) sent goes reports =
      send_error-reason sent (message_of x) secrets
  send_end-reason secrets before (delivered cs, e) sent goes reports = rw (send_all-stays sent cs) (
      reason_if e.finished _ _ (delivered-reason before e sent cs goes (reports e cs refl))
        (λ early. send_error-reason (sent ++ cs) (codes "stream ended before completion") secrets))

  send_packet-reason :
      (secrets : List Text) (before : Decoder) (r : Pushed × Decoder) (sent : List StreamChunk)
      (later : Decoder → List StreamChunk → List StreamChunk)
      → before.finished ≡ false
      → ReportsResult before r
      → ((d : Decoder) (s : List StreamChunk)
          → d.finished ≡ false
          → any has_reason (later d s) ≡ true)
      → any has_reason (send_packet alive secrets r sent later) ≡ true
  unfolding send_packet
  send_packet-reason secrets before (refused x, e) sent later goes reports next =
      send_failure-reason sent e.recovered (message_of x) secrets
  send_packet-reason secrets before (delivered cs, e) sent later goes reports next =
      rw (send_all-stays sent cs) (
        reason_if e.finished _ _ (delivered-reason before e sent cs goes (reports e cs refl))
          (next e (sent ++ cs)))

  receive_loop-reason :
      (secrets : List Text) (json : SerdeJson) (arrivals : List Arrival) (d : Decoder)
      (sent : List StreamChunk)
      → d.finished ≡ false
      → any has_reason (receive_loop alive secrets json arrivals d sent) ≡ true
  unfolding receive_loop
  receive_loop-reason secrets json [] d sent goes =
      send_end-reason secrets d (end_stream json d) sent goes (λ e cs. end_stream-Reports json d)
  receive_loop-reason secrets json (failed error ∷ rest) d sent goes =
      send_failure-reason sent d.recovered error secrets
  receive_loop-reason secrets json (packet bytes ∷ rest) d sent goes =
      send_packet-reason secrets d (push json bytes d) sent (receive_loop alive secrets json rest)
        goes (λ e cs. push-Reports json bytes d) (receive_loop-reason secrets json rest)

  -- Whatever arrives, a receiver that stays is sent a chunk with the reason for which the stream
  -- has ended: one of the service's own, or an error.
  pub receive-reason :
      (secrets : List Text) (json : SerdeJson) (format : WireFormat) (arrivals : List Arrival)
      → any has_reason (receive alive secrets json format arrivals) ≡ true
  unfolding receive
  receive-reason secrets json format arrivals =
      receive_loop-reason secrets json arrivals (new_decoder format) [] refl
