-- ===== src/Stream.antt =====
-- crates/engine/src/provider/llm/streaming.rs: the decoder of the streams of the LLM services,
-- server-sent events or lines of JSON over packets of bytes. `chunks: &mut Vec<StreamChunk>` is
-- only pushed to: a function returns what it pushes. The methods are in `Decoding`.
pub mod Bytes
pub mod Decoding
pub mod Drain
pub mod Packets
mod Receiving
mod Reports
mod Delivery
mod Tests
use linguaray.Base.{
  strip_prefix, trim_end_matches, ℕ, ◌+◌, ◌*◌, Bool, true, false, not, ◌&&◌, ◌||◌, Option, none,
  some, List, [], ◌∷◌, ◌++◌, ltb, ◌==◌, if◌then◌else◌, is_empty, length, drop, Text, codes, same,
  trim, starts_with, utf8_len,
}
use linguaray.Base.Utf8.{from_utf8}

pub data WireFormat : Type 0 where
  open_ai anthropic ollama : WireFormat

pub record StreamChunk : Type 0 where
  pub content : Text
  pub index : ℕ
  pub finish_reason : Option Text

-- The messages of the errors.
pub data StreamError : Type 0 where
  invalid_utf8 invalid_json too_large : StreamError
  provider_error : Text → StreamError

-- The crate serde_json: its parser and the readings of a `Value` that the decoder makes. An index
-- that is not there reads as null.
pub record SerdeJson : Type 1 where
  pub Value : Type 0
  pub from_str : Text → Option Value
  pub get : Value → Text → Option Value
  pub at : Value → Text → Value
  pub is_null : Value → Bool
  pub as_str : Value → Option Text
  pub as_u64 : Value → Option ℕ
  pub as_bool : Value → Option Bool
  pub as_array : Value → Option (List Value)

pub record Decoder : Type 0 where
  pub format : WireFormat
  pub bytes : List ℕ
  pub data_text : Text
  pub event : Text
  pub stop_reason : Text
  pub finished : Bool
  pub recovered : List StreamChunk

-- `Decoder::new`
abbrev pub new_decoder : WireFormat → Decoder
new_decoder format = record {
  format = format;
  bytes = [];
  data_text = [];
  event = [];
  stop_reason = codes "stop";
  finished = false;
  recovered = [];
}

-- `unwrap_or`
abbrev pub unwrap_or {ℓ} : {A : Type ℓ} → A → Option A → A
unwrap_or d none = d
unwrap_or d (some v) = v

abbrev pub is_some {ℓ} : {A : Type ℓ} → Option A → Bool
is_some none = false
is_some (some v) = true

-- `Option<&str> == Some("..")`, and `Value == "..."`
abbrev pub is_text : Option Text → Text → Bool
is_text none t = false
is_text (some s) t = same s t

-- What a step of the decoder returns: its error, the decoder, and the chunks that it pushes.
pub record Decoded : Type 0 where
  pub error : Option StreamError
  pub decoder : Decoder
  pub chunks : List StreamChunk

abbrev pub passed : Decoder × List StreamChunk → Decoded
passed p = record { error = none; decoder = p.0; chunks = p.1 }

-- `Result<Vec<StreamChunk>, String>`
pub data Pushed : Type 0 where
  delivered : List StreamChunk → Pushed
  refused : StreamError → Pushed

abbrev pub is_line_end : ℕ → Bool
is_line_end c = c == 10 || c == 13

-- `String::len`, in bytes
abbrev pub text_len : Text → ℕ
text_len [] = 0
text_len (c ∷ s) = utf8_len c + text_len s

unfoldable pub emit : Text → Option Text → Decoder → Decoder × List StreamChunk
emit content reason d = (
  record d { finished = d.finished || is_some reason },
  if not (is_empty content) || is_some reason
      then record { content = content; index = 0; finish_reason = reason } ∷ []
      else [],
)

-- `match reason` of a `message_delta`
unfoldable pub stop_reason_of : Text → Text
stop_reason_of reason =
    if same reason (codes "end_turn") || same reason (codes "stop_sequence")
    then codes "stop"
    else if same reason (codes "max_tokens")
    then codes "length"
    else reason

-- What `push` makes of its loop. An error of a line keeps the chunks of the lines before it in
-- `recovered`; a line that is not UTF-8 does not.
abbrev pub answer : Decoded → Pushed × Decoder
answer r = elim r.error [
  | some invalid_utf8 ↦ (refused invalid_utf8, r.decoder)
  | some e ↦ (refused e, record r.decoder { recovered = r.chunks })
  | none ↦
      if ltb (1024 * 1024) (length r.decoder.bytes + text_len r.decoder.data_text)
      then (refused too_large, r.decoder)
      else (delivered r.chunks, r.decoder)
]

-- What `end` makes of the line and the event that are left.
abbrev pub end_answer : Decoded → Decoded → Pushed × Decoder
end_answer first last = elim first.error [
  | some e ↦ (refused e, first.decoder)
  | none ↦ elim last.error [
    | some e ↦ (refused e, last.decoder)
    | none ↦ (delivered (first.chunks ++ last.chunks), last.decoder)
  ]
]
