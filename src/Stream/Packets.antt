-- ===== src/Stream/Packets.antt =====
-- The chunks of a stream do not depend on how its bytes are cut into packets.
use mathlib.Core.List.{append_assoc}
use linguaray.Base.{
  true, ◌≢◌, ℕ, ◌+◌, ◌*◌, ltb, length, ◌≡◌, refl, sym, ap, ◌∙◌, inl, inr, false, Option, none, some,
  List, [], ◌++◌, arith, Bool-cases, any,
}
use linguaray.Stream.{
  Pushed, invalid_utf8, invalid_json, too_large, provider_error, answer, StreamChunk, StreamError,
  SerdeJson, Decoder, Decoded, passed, delivered, refused, text_len,
}
use linguaray.Stream.Decoding.{drain, push}
use linguaray.Stream.Drain.{
  prepend, with_chunks, then_drain, is_newline, if-false, if-true, drain-append, drain-resume,
  drain-Waits,
}

abbrev with_error : Option StreamError → Decoded → Decoded
with_error error r = record r { error = error }

-- A loop whose chunks are delivered ends well, with these chunks.
answer-delivered :
    (error : Option StreamError) (d : Decoder) (cs : List StreamChunk) {cs' : List StreamChunk}
    {d' : Decoder}
    → answer (record { error = error; decoder = d; chunks = cs }) ≡ (delivered cs', d')
    → with_error error (passed (d, cs)) ≡ passed (d', cs')
answer-delivered (some invalid_utf8) d cs h = absurd (ground arith)
answer-delivered (some invalid_json) d cs h = absurd (ground arith)
answer-delivered (some too_large) d cs h = absurd (ground arith)
answer-delivered (some (provider_error e)) d cs h = absurd (ground arith)
answer-delivered none d cs {cs'} {d'} h =
    elim (Bool-cases (ltb (1024 * 1024) (length d.bytes + text_len d.data_text))) [
      | inl over ↦
          let refusal : ◌≡◌ {A = Pushed × Decoder} (refused too_large, d) (delivered cs', d') =
            sym (if-true _ _ _ over) ∙ h in
          absurd (ground arith)
      | inr fits ↦
          let delivery : ◌≡◌ {A = Pushed × Decoder} (delivered cs, d) (delivered cs', d') =
            sym (if-false _ _ _ fits) ∙ h in
          let same_chunks : cs ≡ cs' = ground arith in
          let same_decoder : d ≡ d' = ap (λ p. p.1) delivery in
          ap (λ x. with_chunks cs (passed (x, cs))) same_decoder
          ∙ ap (λ x. with_chunks x (passed (d', cs))) same_chunks
    ]

-- What a packet gives after the chunks of the packet before it.
abbrev pub joined : List StreamChunk → Pushed × Decoder → Pushed × Decoder
joined cs (delivered ds, f) = (delivered (cs ++ ds), f)
joined cs (refused invalid_utf8, f) = (refused invalid_utf8, f)
joined cs (refused invalid_json, f) =
    (refused invalid_json, record f { recovered = cs ++ f.recovered })
joined cs (refused too_large, f) = (refused too_large, f)
joined cs (refused (provider_error e), f) =
    (refused (provider_error e), record f { recovered = cs ++ f.recovered })

answer-prepend :
    (error : Option StreamError) (d : Decoder) (cs ds : List StreamChunk)
    → (answer (record { error = error; decoder = d; chunks = ds })).0 ≢ refused too_large
    → answer (record { error = error; decoder = d; chunks = cs ++ ds })
      ≡ joined cs (answer (record { error = error; decoder = d; chunks = ds }))
answer-prepend (some invalid_utf8) d cs ds h = refl
answer-prepend (some invalid_json) d cs ds h = refl
answer-prepend (some too_large) d cs ds h = absurd (h refl)
answer-prepend (some (provider_error e)) d cs ds h = refl
answer-prepend none d cs ds h =
    elim (Bool-cases (ltb (1024 * 1024) (length d.bytes + text_len d.data_text))) [
      | inl over ↦ absurd (h (ap (λ p. p.0) (if-true-answer over)))
      | inr fits ↦ if-false _ _ _ fits ∙ ap (joined cs) (sym (if-false _ _ _ fits))
    ]
  where
    if-true-answer :
        ltb (1024 * 1024) (length d.bytes + text_len d.data_text) ≡ true
        → answer (record { error = none; decoder = d; chunks = ds }) ≡ (refused too_large, d)
    if-true-answer over = if-true _ _ _ over

-- If a packet is delivered and has not finished the stream, and the packet after it is not refused as
-- too large, then their bytes in one packet give what the second one gives, with the chunks of the
-- first one before its own: after an error of a line those chunks are recovered, unless the line is
-- not UTF-8.
pub push-joined :
    (json : SerdeJson) (xs ys : List ℕ) (d e : Decoder) (cs : List StreamChunk)
    → push json xs d ≡ (delivered cs, e)
    → e.finished ≡ false
    → (push json ys e).0 ≢ refused too_large
    → push json (xs ++ ys) d ≡ joined cs (push json ys e)
unfolding push
push-joined json xs ys d e cs first unfinished within =
    let r = drain json [] (d.bytes ++ xs) d in
    let one = answer-delivered r.error r.decoder r.chunks first in
    let q = drain json [] (e.bytes ++ ys) e in
    let fine : r.error ≡ none = ap (λ x. x.error) one in
    let left : r.decoder ≡ e = ap (λ x. x.decoder) one in
    let going : r.decoder.finished ≡ false = ap (λ x. x.finished) left ∙ unfinished in
    let waiting : any is_newline e.bytes ≡ false =
      sym (ap (λ x. any is_newline x.bytes) left)
      ∙ drain-Waits json [] (d.bytes ++ xs) d refl fine going in
    let whole : drain json [] (d.bytes ++ (xs ++ ys)) d ≡ prepend cs q =
      ap (λ b. drain json [] b d) (sym (append_assoc d.bytes xs ys))
      ∙ drain-append json [] (d.bytes ++ xs) ys d fine going
      ∙ ap (λ x. then_drain json x ys) one
      ∙ ap (prepend cs) (sym (drain-resume json [] e.bytes ys e waiting)) in
    ap answer whole ∙ answer-prepend q.error q.decoder cs q.chunks within
