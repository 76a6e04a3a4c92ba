-- ===== src/Stream/Drain.antt =====
-- The loop of `push` over the bytes of two packets.
use mathlib.Core.List.{append_assoc, append-nil}
use linguaray.Base.{
  trim_end_matches, ℕ, any-append, ◌≡◌, refl, sym, ap, ◌∙◌, inl, inr, Bool, true, false, Option,
  none, some, List, [], ◌∷◌, ◌++◌, arith, Bool-cases, Option-cases, if◌then◌else◌, any, Text, ◌==◌,
}
use linguaray.Base.Utf8.{from_utf8}
use linguaray.Stream.{
  invalid_utf8, StreamChunk, StreamError, SerdeJson, Decoder, Decoded, is_line_end,
}
use linguaray.Stream.Decoding.{line_text, drain}
use linguaray.Stream.Bytes.{with_bytes, line_text-bytes}

abbrev pub prepend : List StreamChunk → Decoded → Decoded
prepend cs q = record q { chunks = cs ++ q.chunks }

abbrev pub with_chunks : List StreamChunk → Decoded → Decoded
with_chunks cs q = record q { chunks = cs }

-- The first packet is drained, then the second one with the decoder that is left.
abbrev pub then_drain : (json : SerdeJson) → Decoded → List ℕ → Decoded
then_drain json r ys = prepend r.chunks (drain json r.decoder.bytes ys r.decoder)

pub if-false : {A : Type 0} (c : Bool) (x y : A) → c ≡ false → (if c then x else y) ≡ y
if-false true x y h = cc
if-false false x y h = refl

pub if-true : {A : Type 0} (c : Bool) (x y : A) → c ≡ true → (if c then x else y) ≡ x
if-true true x y h = refl
if-true false x y h = cc

module _ (json : SerdeJson) where
  -- The loop after a line that gave `r`.
  abbrev after_line : Decoded → List ℕ → Decoded → Decoded
  after_line r zs rest = elim r.error [
    | some e ↦ with_bytes zs r
    | none ↦ if r.decoder.finished then with_bytes zs r else prepend r.chunks rest
  ]

  drain-newline :
      (taken zs : List ℕ) (x : ℕ) (d : Decoder) {text : Text}
      → (x == 10) ≡ true
      → from_utf8 (taken ++ x ∷ []) ≡ some text
      → drain json taken (x ∷ zs) d
        ≡ after_line
            (line_text json (trim_end_matches is_line_end text) d)
            zs
            (drain json [] zs (line_text json (trim_end_matches is_line_end text) d).decoder)
  unfolding drain
  drain-newline taken zs x d newline good = rw newline (rw (good, drain) refl)

  drain-bytes :
      (b taken xs : List ℕ) (d : Decoder)
      → drain json taken xs (record d { bytes = b }) ≡ drain json taken xs d
  unfolding drain
  drain-bytes b taken [] d = refl
  drain-bytes b taken (x ∷ xs) d = elim (Bool-cases (x == 10)) [
    | inr n ↦ rw n (drain-bytes b (taken ++ x ∷ []) xs d)
    | inl newline ↦ elim (Option-cases (from_utf8 (taken ++ x ∷ []))) [
      | inl bad ↦ rw newline (rw (bad, drain) refl)
      | inr (text, good) ↦
          let line = trim_end_matches is_line_end text in
          let r = line_text json line d in
          drain-newline taken xs x (record d { bytes = b }) newline good
          ∙ ap (λ q. after_line q xs (drain json [] xs q.decoder)) (line_text-bytes json b line d)
          ∙ ap (after_line r xs) (drain-bytes b [] xs r.decoder)
          ∙ sym (drain-newline taken xs x d newline good)
    ]
  ]

  -- What two packets give, if the first one ends well and does not finish the stream.
  abbrev pub Appends : Decoded → Decoded → List ℕ → Type 0
  Appends r whole ys = r.error ≡ none → r.decoder.finished ≡ false → whole ≡ then_drain json r ys

  after_line-append :
      (error : Option StreamError) (d : Decoder) (cs : List StreamChunk) (xs ys : List ℕ)
      (rest whole : Decoded)
      → Appends rest whole ys
      → Appends
          (after_line (record { error = error; decoder = d; chunks = cs }) xs rest)
          (after_line (record { error = error; decoder = d; chunks = cs }) (xs ++ ys) whole)
          ys
  after_line-append (some error) d cs xs ys rest whole ih e f = cc
  after_line-append none d cs xs ys rest whole ih e f = elim (Bool-cases d.finished) [
    | inl done ↦
        let left =
          ap (λ q. q.decoder.finished) (if-true d.finished (stopped xs) (prepend cs rest) done) in
        cc (left, done, f)
    | inr going ↦
        let first = if-false d.finished (stopped xs) (prepend cs rest) going in
        let e' : rest.error ≡ none = sym (ap (λ q. q.error) first) ∙ e in
        let f' : rest.decoder.finished ≡ false = sym (ap (λ q. q.decoder.finished) first) ∙ f in
        if-false d.finished (stopped (xs ++ ys)) (prepend cs whole) going
        ∙ ap (prepend cs) (ih e' f')
        ∙ joined
        ∙ ap (λ q. then_drain json q ys) (sym first)
  ]
    where
      stopped : List ℕ → Decoded
      stopped zs = with_bytes zs (record { error = none; decoder = d; chunks = cs })

      joined : prepend cs (then_drain json rest ys) ≡ then_drain json (prepend cs rest) ys
      joined =
          let last = drain json rest.decoder.bytes ys rest.decoder in
          ap (λ ds. with_chunks ds last) (sym (append_assoc cs rest.chunks last.chunks))

  pub drain-append :
      (taken xs ys : List ℕ) (d : Decoder)
      → Appends (drain json taken xs d) (drain json taken (xs ++ ys) d) ys
  unfolding drain
  drain-append taken [] ys d e f = sym (drain-bytes taken taken ys d)
  drain-append taken (x ∷ xs) ys d e f = elim (Bool-cases (x == 10)) [
    | inr n ↦
        rw n (drain-append (taken ++ x ∷ []) xs ys d (rw (n, drain) at e) (rw (n, drain) at f))
    | inl newline ↦ elim (Option-cases (from_utf8 (taken ++ x ∷ []))) [
      | inl bad ↦
          let none_left : (drain json taken (x ∷ xs) d).error ≡ some invalid_utf8 =
            rw newline (rw (bad, drain) refl) in
          cc (none_left, e)
      | inr (text, good) ↦
          let r = line_text json (trim_end_matches is_line_end text) d in
          let one = drain-newline taken xs x d newline good in
          drain-newline taken (xs ++ ys) x d newline good
          ∙ after_line-append r.error r.decoder r.chunks xs ys _ _ (drain-append [] xs ys r.decoder)
              (sym (ap (λ q. q.error) one) ∙ e) (sym (ap (λ q. q.decoder.finished) one) ∙ f)
          ∙ ap (λ q. then_drain json q ys) (sym one)
    ]
  ]

abbrev pub is_newline : ℕ → Bool
is_newline b = b == 10

module _ (json : SerdeJson) where
  -- Bytes of an unfinished line are only gathered.
  pub drain-resume :
      (taken waiting ys : List ℕ) (d : Decoder)
      → any is_newline waiting ≡ false
      → drain json taken (waiting ++ ys) d ≡ drain json (taken ++ waiting) ys d
  unfolding drain
  drain-resume taken [] ys d h = ap (λ t. drain json t ys d) (sym (append-nil taken))
  drain-resume taken (b ∷ waiting) ys d h =
      let n : (b == 10) ≡ false = ground arith in
      rw n (
        drain-resume (taken ++ b ∷ []) waiting ys d (ground arith)
        ∙ ap (λ t. drain json t ys d) (append_assoc taken (b ∷ []) waiting))

  -- What waits after a loop that ends well is an unfinished line.
  abbrev pub Waits : Decoded → Type 0
  Waits r = r.error ≡ none → r.decoder.finished ≡ false → any is_newline r.decoder.bytes ≡ false

  after_line-Waits :
      (error : Option StreamError) (d : Decoder) (cs : List StreamChunk) (xs : List ℕ)
      (rest : Decoded)
      → Waits rest
      → Waits (after_line json (record { error = error; decoder = d; chunks = cs }) xs rest)
  after_line-Waits (some error) d cs xs rest ih e f = cc
  after_line-Waits none d cs xs rest ih e f = elim (Bool-cases d.finished) [
    | inl done ↦
        let stopped = with_bytes xs (record { error = none; decoder = d; chunks = cs }) in
        let left =
          ap (λ q. q.decoder.finished) (if-true d.finished stopped (prepend cs rest) done) in
        cc (left, done, f)
    | inr going ↦
        let stopped = with_bytes xs (record { error = none; decoder = d; chunks = cs }) in
        let first = if-false d.finished stopped (prepend cs rest) going in
        ap (λ q. any is_newline q.decoder.bytes) first
        ∙ ih (sym (ap (λ q. q.error) first) ∙ e) (sym (ap (λ q. q.decoder.finished) first) ∙ f)
  ]

  pub drain-Waits :
      (taken xs : List ℕ) (d : Decoder)
      → any is_newline taken ≡ false
      → Waits (drain json taken xs d)
  unfolding drain
  drain-Waits taken [] d h e f = h
  drain-Waits taken (x ∷ xs) d h e f = elim (Bool-cases (x == 10)) [
    | inr n ↦ rw n (
        drain-Waits (taken ++ x ∷ []) xs d (any-append is_newline taken (x ∷ []) ∙ ground arith)
          (rw (n, drain) at e) (rw (n, drain) at f))
    | inl newline ↦ elim (Option-cases (from_utf8 (taken ++ x ∷ []))) [
      | inl bad ↦
          let none_left : (drain json taken (x ∷ xs) d).error ≡ some invalid_utf8 =
            rw newline (rw (bad, drain) refl) in
          cc (none_left, e)
      | inr (text, good) ↦
          let r = line_text json (trim_end_matches is_line_end text) d in
          let one = drain-newline json taken xs x d newline good in
          ap (λ q. any is_newline q.decoder.bytes) one
          ∙ after_line-Waits r.error r.decoder r.chunks xs _ (drain-Waits [] xs r.decoder refl)
              (sym (ap (λ q. q.error) one) ∙ e) (sym (ap (λ q. q.decoder.finished) one) ∙ f)
    ]
  ]
