-- ===== src/Stream/Bytes.antt =====
-- A line is decoded without a look at the bytes that wait behind it.
use linguaray.Base.{
  ℕ, ◌≡◌, refl, ap, inl, inr, List, [], ◌∷◌, ◌++◌, arith, Bool-cases, Option-cases, Text, codes,
  ◌==◌,
}
use linguaray.Stream.{StreamChunk, SerdeJson, Decoder, Decoded, emit, unwrap_or}
use linguaray.Stream.Decoding.{
  emit_choices, anthropic_event, ollama_line, dispatch_format, record_text, dispatch, field_line,
  line_text,
}

-- The decoder with other bytes waiting.
abbrev pub with_bytes : List ℕ → Decoded → Decoded
with_bytes b r = record r { decoder = record r.decoder { bytes = b } }

abbrev pair_with : List ℕ → Decoder × List StreamChunk → Decoder × List StreamChunk
pair_with b p = (record p.0 { bytes = b }, p.1)

module _ (json : SerdeJson) (b : List ℕ) where
  emit_choices-bytes :
      (choices : List json.Value) (d : Decoder)
      → emit_choices json choices (record d { bytes = b })
        ≡ pair_with b (emit_choices json choices d)
  unfolding emit_choices emit
  emit_choices-bytes [] d = refl
  emit_choices-bytes (choice ∷ rest) d =
      let content =
        unwrap_or [] (json.as_str (json.at (json.at choice (codes "delta")) (codes "content"))) in
      let first = emit content (json.as_str (json.at choice (codes "finish_reason"))) d in
      elim (Bool-cases (unwrap_or 0 (json.as_u64 (json.at choice (codes "index"))) == 0)) [
        | inl e ↦ rw e (ap (λ p. (p.0, first.1 ++ p.1)) (emit_choices-bytes rest first.0))
        | inr n ↦ rw n (emit_choices-bytes rest d)
      ]

  anthropic_event-bytes :
      (value : json.Value) (d : Decoder)
      → anthropic_event json value (record d { bytes = b })
        ≡ pair_with b (anthropic_event json value d)
  unfolding anthropic_event emit
  anthropic_event-bytes value d = ground arith

  dispatch_format-bytes :
      (value : json.Value) (d : Decoder)
      → dispatch_format json value (record d { bytes = b })
        ≡ pair_with b (dispatch_format json value d)
  unfolding dispatch_format ollama_line emit
  dispatch_format-bytes value d =
      let choices = unwrap_or [] (json.as_array (json.at value (codes "choices"))) in
      ground (arith, emit_choices-bytes choices d, anthropic_event-bytes value d)

  record_text-bytes :
      (text : Text) (d : Decoder)
      → record_text json text (record d { bytes = b }) ≡ with_bytes b (record_text json text d)
  unfolding record_text emit
  record_text-bytes text d = elim (Option-cases (json.from_str text)) [
    | inl absent ↦ ground arith
    | inr (value, parsed) ↦ ground (arith, dispatch_format-bytes value d)
  ]

  dispatch-bytes :
      (d : Decoder) → dispatch json (record d { bytes = b }) ≡ with_bytes b (dispatch json d)
  unfolding dispatch
  dispatch-bytes d = ground (arith, record_text-bytes d.data_text (record d { data_text = [] }))

  pub line_text-bytes :
      (line : Text) (d : Decoder)
      → line_text json line (record d { bytes = b }) ≡ with_bytes b (line_text json line d)
  unfolding line_text field_line
  line_text-bytes line d = ground (arith, dispatch-bytes d, record_text-bytes line d)
