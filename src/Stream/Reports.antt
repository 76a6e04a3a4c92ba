-- ===== src/Stream/Reports.antt =====
-- The decoder counts as finished exactly when one of the chunks has said so.
use linguaray.Base.{
  ℕ, ◌≡◌, inl, inr, Bool, true, false, ◌||◌, Option, none, some, Bool-cases, Option-cases, List, [],
  ◌∷◌, ◌++◌, arith, any, any-append, if◌then◌else◌, Text, is_empty, ◌==◌, trim_end_matches, codes,
}
use linguaray.Base.Utf8.{from_utf8}
use linguaray.Stream.{
  Decoded, end_answer, StreamChunk, SerdeJson, Decoder, is_some, is_line_end, emit, delivered,
  unwrap_or,
}
use linguaray.Stream.Decoding.{
  emit_choices, anthropic_event, ollama_line, dispatch_format, record_text, dispatch, field_line,
  line_text, drain, push, end_line, end_event, end_stream,
}

-- The chunk says why the stream has ended.
abbrev pub has_reason : StreamChunk → Bool
has_reason c = is_some c.finish_reason

-- The chunks that a step pushes say whether it has finished the stream.
abbrev pub Reports : Decoder → Decoder → List StreamChunk → Type 0
Reports before after chunks = after.finished ≡ (before.finished || any has_reason chunks)

abbrev pub Reporting : Decoder → Decoder × List StreamChunk → Type 0
Reporting before p = Reports before p.0 p.1

Reports-append :
    (a b c : Decoder) (cs ds : List StreamChunk)
    → Reports a b cs
    → Reports b c ds
    → Reports a c (cs ++ ds)
Reports-append a b c cs ds h k = ground (arith, any-append has_reason cs ds)

if-Reporting :
    (d : Decoder) (test : Bool) (x y : Decoder × List StreamChunk)
    → Reporting d x
    → Reporting d y
    → Reporting d (if test then x else y)
if-Reporting d true x y h k = h
if-Reporting d false x y h k = k

emit-Reports :
    (content : Text) (reason : Option Text) (d : Decoder) → Reporting d (emit content reason d)
unfolding emit
emit-Reports content none d = elim (Bool-cases (is_empty content)) [
  | inl blank ↦ ground arith
  | inr full ↦ ground arith
]
emit-Reports content (some r) d = ground arith

end_answer-Reports :
    (d : Decoder) (first last : Decoded) {e : Decoder} {cs : List StreamChunk}
    → Reports d first.decoder first.chunks
    → Reports first.decoder last.decoder last.chunks
    → end_answer first last ≡ (delivered cs, e)
    → Reports d e cs
end_answer-Reports d first last {e} {cs} h k answered =
    let whole = Reports-append d first.decoder last.decoder first.chunks last.chunks h k in
    ground arith

module _ (json : SerdeJson) where
  emit_choices-Reports :
      (choices : List json.Value) (d : Decoder) → Reporting d (emit_choices json choices d)
  unfolding emit_choices
  emit_choices-Reports [] d = ground arith
  emit_choices-Reports (choice ∷ rest) d =
      let content =
        unwrap_or [] (json.as_str (json.at (json.at choice (codes "delta")) (codes "content"))) in
      let reason = json.as_str (json.at choice (codes "finish_reason")) in
      let first = emit content reason d in
      if-Reporting d (unwrap_or 0 (json.as_u64 (json.at choice (codes "index"))) == 0) _ _
        (Reports-append d first.0 (emit_choices json rest first.0).0 first.1
          (emit_choices json rest first.0).1 (emit-Reports content reason d)
          (emit_choices-Reports rest first.0))
        (emit_choices-Reports rest d)

  anthropic_event-Reports :
      (value : json.Value) (d : Decoder) → Reporting d (anthropic_event json value d)
  unfolding anthropic_event
  anthropic_event-Reports value d =
      let text =
        unwrap_or [] (json.as_str (json.at (json.at value (codes "delta")) (codes "text"))) in
      ground (arith, emit-Reports text none d, emit-Reports [] (some d.stop_reason) d)

  ollama_line-Reports : (value : json.Value) (d : Decoder) → Reporting d (ollama_line json value d)
  unfolding ollama_line
  ollama_line-Reports value d = emit-Reports _ _ d

  dispatch_format-Reports :
      (value : json.Value) (d : Decoder) → Reporting d (dispatch_format json value d)
  unfolding dispatch_format
  dispatch_format-Reports value d =
      let choices = unwrap_or [] (json.as_array (json.at value (codes "choices"))) in
      ground (
        arith,
        emit_choices-Reports choices d,
        anthropic_event-Reports value d,
        ollama_line-Reports value d,
      )

  record_text-Reports :
      (text : Text) (d : Decoder)
      → Reports d (record_text json text d).decoder (record_text json text d).chunks
  unfolding record_text emit
  record_text-Reports text d = elim (Option-cases (json.from_str text)) [
    | inl absent ↦ ground arith
    | inr (value, parsed) ↦ ground (arith, dispatch_format-Reports value d)
  ]

  dispatch-Reports : (d : Decoder) → Reports d (dispatch json d).decoder (dispatch json d).chunks
  unfolding dispatch
  dispatch-Reports d = ground (arith, record_text-Reports d.data_text (record d { data_text = [] }))

  line_text-Reports :
      (line : Text) (d : Decoder)
      → Reports d (line_text json line d).decoder (line_text json line d).chunks
  unfolding line_text field_line
  line_text-Reports line d = ground (arith, dispatch-Reports d, record_text-Reports line d)

  drain-Reports :
      (taken bytes : List ℕ) (d : Decoder)
      → Reports d (drain json taken bytes d).decoder (drain json taken bytes d).chunks
  unfolding drain
  drain-Reports taken [] d = ground arith
  drain-Reports taken (b ∷ bs) d = elim (Option-cases (from_utf8 (taken ++ b ∷ []))) [
    | inl bad ↦ ground (arith, drain-Reports (taken ++ b ∷ []) bs d)
    | inr (text, good) ↦
        let line = trim_end_matches is_line_end text in
        let r = line_text json line d in
        ground (
          arith,
          drain-Reports (taken ++ b ∷ []) bs d,
          line_text-Reports line d,
          drain-Reports [] bs r.decoder,
          any-append has_reason r.chunks (drain json [] bs r.decoder).chunks,
        )
  ]

  -- What a packet delivers says whether it has finished the stream.
  pub push-Reports :
      (packet : List ℕ) (d : Decoder) {e : Decoder} {cs : List StreamChunk}
      → push json packet d ≡ (delivered cs, e)
      → Reports d e cs
  unfolding push
  push-Reports packet d {e} {cs} h = ground (arith, drain-Reports [] (d.bytes ++ packet) d)

  end_line-Reports : (d : Decoder) → Reports d (end_line json d).decoder (end_line json d).chunks
  unfolding end_line
  end_line-Reports d = elim (Option-cases (from_utf8 d.bytes)) [
    | inl bad ↦ ground arith
    | inr (text, good) ↦
        ground (
          arith,
          line_text-Reports (trim_end_matches (λ c. c == 13) text) (record d { bytes = [] }),
        )
  ]

  end_event-Reports : (d : Decoder) → Reports d (end_event json d).decoder (end_event json d).chunks
  unfolding end_event
  end_event-Reports d = ground (arith, dispatch-Reports d)

  pub end_stream-Reports :
      (d : Decoder) {e : Decoder} {cs : List StreamChunk}
      → end_stream json d ≡ (delivered cs, e)
      → Reports d e cs
  unfolding end_stream
  end_stream-Reports d {e} {cs} h =
      let first = end_line json d in
      end_answer-Reports d first (end_event json first.decoder) (end_line-Reports d)
        (end_event-Reports first.decoder) h
