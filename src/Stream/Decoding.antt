-- ===== src/Stream/Decoding.antt =====
-- The methods of `Decoder` in crates/engine/src/provider/llm/streaming.rs.
use linguaray.Base.{
  strip_prefix, trim_end_matches, ℕ, false, ◌&&◌, Option, none, some, List, [], ◌∷◌, ◌++◌, ◌==◌,
  if◌then◌else◌, is_empty, Text, codes, same, trim,
}
use linguaray.Base.Utf8.{from_utf8}
use linguaray.Stream.{
  StreamChunk, SerdeJson, Decoder, unwrap_or, is_text, Decoded, passed, Pushed, is_line_end, emit,
  stop_reason_of, answer, end_answer, open_ai, anthropic, ollama, invalid_utf8, invalid_json,
  provider_error,
}

module _ (json : SerdeJson) where
  -- The loop over `value["choices"]`.
  unfoldable pub emit_choices : List json.Value → Decoder → Decoder × List StreamChunk
  unfolding emit
  emit_choices [] d = (d, [])
  emit_choices (choice ∷ rest) d =
      let content =
        unwrap_or [] (json.as_str (json.at (json.at choice (codes "delta")) (codes "content"))) in
      let reason = json.as_str (json.at choice (codes "finish_reason")) in
      let first = emit content reason d in
      let others = emit_choices rest first.0 in
      let skipped = emit_choices rest d in
      if unwrap_or 0 (json.as_u64 (json.at choice (codes "index"))) == 0
      then (others.0, first.1 ++ others.1)
      else skipped

  unfoldable pub anthropic_event : json.Value → Decoder → Decoder × List StreamChunk
  unfolding emit stop_reason_of
  anthropic_event value d =
      let delta = json.at value (codes "delta") in
      let kind = unwrap_or d.event (json.as_str (json.at value (codes "type"))) in
      if same kind (codes "content_block_delta")
        && is_text (json.as_str (json.at delta (codes "type"))) (codes "text_delta")
      then emit (unwrap_or [] (json.as_str (json.at delta (codes "text")))) none d
      else if same kind (codes "message_delta")
      then elim (json.as_str (json.at delta (codes "stop_reason"))) [
        | none ↦ (d, [])
        | some reason ↦ (record d { stop_reason = stop_reason_of reason }, [])
      ]
      else if same kind (codes "message_stop")
      then emit [] (some d.stop_reason) d
      else (d, [])

  unfoldable pub ollama_line : json.Value → Decoder → Decoder × List StreamChunk
  unfolding emit
  ollama_line value d =
      let content =
        unwrap_or [] (json.as_str (json.at (json.at value (codes "message")) (codes "content"))) in
      let reason = unwrap_or (codes "stop") (json.as_str (json.at value (codes "done_reason"))) in
      emit content
        (if unwrap_or false (json.as_bool (json.at value (codes "done")))
          then some reason
          else none)
        d

  unfoldable pub dispatch_format : json.Value → Decoder → Decoder × List StreamChunk
  unfolding emit_choices anthropic_event ollama_line
  dispatch_format value d = elim d.format [
    | open_ai ↦ emit_choices (unwrap_or [] (json.as_array (json.at value (codes "choices")))) d
    | anthropic ↦ anthropic_event value d
    | ollama ↦ ollama_line value d
  ]

  -- The text of an error of the service.
  unfoldable pub error_text : json.Value → Text
  error_text error =
      unwrap_or
        (unwrap_or (codes "provider stream error") (json.as_str (json.at error (codes "message"))))
        (json.as_str error)

  -- `value.get("error").filter(|v| !v.is_null())`
  unfoldable pub error_of : json.Value → Option json.Value
  error_of value = elim (json.get value (codes "error")) [
    | none ↦ none
    | some e ↦ if json.is_null e then none else some e
  ]

  -- `Decoder::record`
  unfoldable pub record_text : Text → Decoder → Decoded
  unfolding dispatch_format error_text error_of
  record_text text d =
      if same (trim text) (codes "[DONE]")
      then passed (emit [] (some (codes "stop")) d)
      else elim (json.from_str text) [
        | none ↦ record { error = some invalid_json; decoder = d; chunks = [] }
        | some value ↦ elim (error_of value) [
          | some e ↦ record {
            error = some (provider_error (error_text e));
            decoder = d;
            chunks = [];
          }
          | none ↦ passed (dispatch_format value d)
        ]
      ]

  unfoldable pub dispatch : Decoder → Decoded
  unfolding record_text
  dispatch d =
      let taken = record d { data_text = [] } in
      let r = record_text d.data_text taken in
      if is_empty d.data_text then passed (record taken { event = [] }, []) else elim r.error [
        | some e ↦ r
        | none ↦ record r { decoder = record r.decoder { event = [] } }
      ]

  -- The `data:` and `event:` lines of an event.
  unfoldable pub field_line : Text → Decoder → Decoder
  field_line line d = elim (strip_prefix (codes "data:") line) [
    | some text ↦
        let text' = unwrap_or text (strip_prefix (codes " ") text) in
        record d {
          data_text = if is_empty d.data_text then text' else d.data_text ++ codes "\n" ++ text';
        }
    | none ↦ elim (strip_prefix (codes "event:") line) [
      | some event ↦ record d { event = trim event }
      | none ↦ d
    ]
  ]

  -- `Decoder::line`
  unfoldable pub line_text : Text → Decoder → Decoded
  unfolding dispatch field_line
  line_text line d =
      let event_line = if is_empty line then dispatch d else passed (field_line line d, []) in
      elim d.format [
        | ollama ↦ if is_empty (trim line) then passed (d, []) else record_text line d
        | open_ai ↦ event_line
        | anthropic ↦ event_line
      ]

  -- The loop of `push` over `self.bytes`; `taken` are the bytes of the line so far.
  unfoldable pub drain : List ℕ → List ℕ → Decoder → Decoded
  unfolding line_text
  drain taken [] d = passed (record d { bytes = taken }, [])
  drain taken (b ∷ bs) d =
      let more = drain (taken ++ b ∷ []) bs d in
      if b == 10
      then elim (from_utf8 (taken ++ b ∷ [])) [
        | none ↦ record {
          error = some invalid_utf8;
          decoder = record d { bytes = bs };
          chunks = [];
        }
        | some text ↦
            let r = line_text (trim_end_matches is_line_end text) d in
            let rest = drain [] bs r.decoder in
            elim r.error [
              | some e ↦ record r { decoder = record r.decoder { bytes = bs } }
              | none ↦
                  if r.decoder.finished
                  then record r { decoder = record r.decoder { bytes = bs } }
                  else record rest { chunks = r.chunks ++ rest.chunks }
            ]
      ]
      else more

  unfoldable pub push : List ℕ → Decoder → Pushed × Decoder
  unfolding drain
  push packet d = answer (drain [] (d.bytes ++ packet) d)

  -- The line that is left at the end
  unfoldable pub end_line : Decoder → Decoded
  unfolding line_text
  end_line d =
      let taken = record d { bytes = [] } in
      if is_empty d.bytes then passed (taken, []) else elim (from_utf8 d.bytes) [
        | none ↦ record { error = some invalid_utf8; decoder = taken; chunks = [] }
        | some text ↦ line_text (trim_end_matches (λ c. c == 13) text) taken
      ]

  -- The event that is left at the end
  unfoldable pub end_event : Decoder → Decoded
  unfolding dispatch
  end_event d = if is_empty d.data_text then passed (d, []) else dispatch d

  -- `Decoder::end`
  unfoldable pub end_stream : Decoder → Pushed × Decoder
  unfolding end_line end_event
  end_stream d = let first = end_line d in end_answer first (end_event first.decoder)
