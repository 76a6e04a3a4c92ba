-- ===== src/Api/Assembly.antt =====
-- A request that comes in chunks is the request that its bytes hold.
use mathlib.Core.List.{append_assoc, append-nil}
use linguaray.Base.{
  ℕ, zero, suc, ◌+◌, ◌≤◌, ◌≡◌, refl, sym, ap, ◌∙◌, inl, inr, true, false, none, some, List, [], ◌∷◌,
  ◌++◌, arith, ltb, if◌then◌else◌, Bool-cases, Option-cases, is_empty, length, length-append, take,
  drop, Text, ◌^◌,
}
use linguaray.Api.Reading.{
  Outcome, done, refused, find_header_end, parse_headers, read_header, read_body, body_of,
  then_body, body_too_large, invalid_content_length, check_length, after_header, read_request,
  max_request_header_bytes, max_request_body_bytes,
}
use linguaray.Api.Chunks.{
  whole_request, joined, AreFull, arriving, find_header_end-within, find_header_end-append,
  find_header_end-late,
}

-- The first bytes of a stream, up to and with the end of the headers
pub record HeaderRead (i : ℕ) (stream buffer : List ℕ) (rest : List (List ℕ)) : Type 0 where
  pub full : AreFull rest
  pub whole : buffer ++ joined rest ≡ stream
  pub within : i + 4 ≤ length buffer

read_header-done :
    (buffer : List ℕ) (chunks : List (List ℕ)) (stream : List ℕ) {i : ℕ}
    → AreFull chunks
    → buffer ++ joined chunks ≡ stream
    → find_header_end buffer ≡ none
    → find_header_end stream ≡ some i
    → i + 3 ≤ max_request_header_bytes
    → (taken : List ℕ) × (rest : List (List ℕ)) × (read_header buffer (arriving chunks)
        ≡ done (taken, i, arriving rest))
      × HeaderRead i stream taken rest
unfolding read_header
read_header-done buffer [] stream full whole early found small =
    let nothing : find_header_end stream ≡ none =
      ap find_header_end (sym (sym (append-nil buffer) ∙ whole)) ∙ early in
    absurd (cc (nothing, found))
read_header-done buffer (chunk ∷ chunks) stream {i} full whole early found small =
    let solid : is_empty chunk ≡ false = ground arith in
    let others : AreFull chunks = ground arith in
    let whole' = append_assoc buffer chunk (joined chunks) ∙ whole in
    elim (Option-cases (find_header_end (buffer ++ chunk))) [
      | inr (j, here) ↦
          let same_place : some j ≡ some i =
            sym (find_header_end-append (buffer ++ chunk) (joined chunks) here)
            ∙ ap find_header_end whole'
            ∙ found in
          let here' = here ∙ same_place in
          (
            buffer ++ chunk,
            chunks,
            rw (solid, here') refl,
            record {
              full = others;
              whole = whole';
              within = find_header_end-within (buffer ++ chunk) here';
            },
          )
      | inl later ↦
          let late : length (buffer ++ chunk) ≤ i + 3 =
            find_header_end-late (buffer ++ chunk) (joined chunks) later
              (ap find_header_end whole' ∙ found) in
          let fits : ltb max_request_header_bytes (length (buffer ++ chunk)) ≡ false =
            ground arith in
          let (taken, rest, goes, read) =
            read_header-done (buffer ++ chunk) chunks stream others whole' later found small in
          (taken, rest, rw (solid, later, fits) goes, read)
    ]

-- The bytes after the second loop: a beginning of the stream, or all of it if it is too short
pub record BodyRead (expected : ℕ) (stream buffer : List ℕ) : Type 0 where
  pub rest : List ℕ
  pub whole : buffer ++ rest ≡ stream
  pub enough : ltb (length buffer) expected ≡ true → rest ≡ []

read_body-done :
    (expected : ℕ) (buffer : List ℕ) (chunks : List (List ℕ)) (stream : List ℕ)
    → AreFull chunks
    → buffer ++ joined chunks ≡ stream
    → (taken : List ℕ) × (read_body expected buffer (arriving chunks) ≡ done taken)
      × BodyRead expected stream taken
unfolding read_body
read_body-done expected buffer [] stream full whole =
    (buffer, refl, record { rest = []; whole = whole; enough = λ short. refl })
read_body-done expected buffer (chunk ∷ chunks) stream full whole =
    elim (Bool-cases (ltb (length buffer) expected)) [
      | inl short ↦
          let solid : is_empty chunk ≡ false = ground arith in
          let (taken, goes, read) =
            read_body-done expected (buffer ++ chunk) chunks stream (ground arith)
              (append_assoc buffer chunk (joined chunks) ∙ whole) in
          (taken, rw (short, solid) goes, read)
      | inr long ↦ (
        buffer,
        rw long refl,
        record {
          rest = chunk ++ joined chunks;
          whole = whole;
          enough = λ short. absurd (cc (short, long));
        },
      )
    ]

take-append : (n : ℕ) (xs ys : List ℕ) → n ≤ length xs → take n (xs ++ ys) ≡ take n xs
take-append zero xs ys h = refl
take-append (suc n) [] ys h = absurd (ground arith)
take-append (suc n) (x ∷ xs) ys h = ap (λ t. x ∷ t) (take-append n xs ys (ground arith))

drop-append : (n : ℕ) (xs ys : List ℕ) → n ≤ length xs → drop n (xs ++ ys) ≡ drop n xs ++ ys
drop-append zero xs ys h = refl
drop-append (suc n) [] ys h = absurd (ground arith)
drop-append (suc n) (x ∷ xs) ys h = drop-append n xs ys (ground arith)

length-drop : (n : ℕ) (xs : List ℕ) → n ≤ length xs → n + length (drop n xs) ≡ length xs
length-drop zero xs h = ground arith
length-drop (suc n) [] h = absurd (ground arith)
length-drop (suc n) (x ∷ xs) h = ground (arith, length-drop n xs)

take-drop-append :
    (start n : ℕ) (xs ys : List ℕ)
    → start + n ≤ length xs
    → take n (drop start (xs ++ ys)) ≡ take n (drop start xs)
take-drop-append start n xs ys h =
    ap (take n) (drop-append start xs ys (ground arith))
    ∙ take-append n (drop start xs) ys (ground (arith, length-drop start xs))

body_of-long :
    (method path : Text) (start content_length : ℕ) (stream buffer : List ℕ)
    → BodyRead (start + content_length) stream buffer
    → start + content_length ≤ length buffer
    → body_of method path start content_length buffer
      ≡ body_of method path start content_length stream
body_of-long method path start content_length stream buffer b long =
    let same_body = take-drop-append start content_length buffer b.rest long in
    let fits : ltb (length buffer) (start + content_length) ≡ false = ground arith in
    let fits' : ltb (length (buffer ++ b.rest)) (start + content_length) ≡ false =
      ground (arith, length-append buffer b.rest) in
    let extended : body_of method path start content_length buffer
        ≡ body_of method path start content_length (buffer ++ b.rest) =
      rw (fits, fits', same_body) refl in
    extended ∙ ap (body_of method path start content_length) b.whole

body_of-BodyRead :
    (method path : Text) (start content_length : ℕ) (stream buffer : List ℕ)
    → BodyRead (start + content_length) stream buffer
    → body_of method path start content_length buffer
      ≡ body_of method path start content_length stream
body_of-BodyRead method path start content_length stream buffer b =
    elim (Bool-cases (ltb (length buffer) (start + content_length))) [
      | inl short ↦
          ap (body_of method path start content_length)
            (sym (append-nil buffer) ∙ ap (λ r. buffer ++ r) (sym (b.enough short)) ∙ b.whole)
      | inr long ↦ body_of-long method path start content_length stream buffer b (ground arith)
    ]

check_length-eq :
    (i : ℕ) (headers : Outcome (Text × Text × ℕ)) (f g : ℕ → Outcome (List ℕ))
    → ((method path : Text) (n : ℕ)
        → then_body method path (i + 4) n (f (i + 4 + n))
          ≡ then_body method path (i + 4) n (g (i + 4 + n)))
    → check_length i headers f ≡ check_length i headers g
unfolding check_length
check_length-eq i (refused e) f g h = refl
check_length-eq i (done (method, path, n)) f g h =
    ap
      (λ rest.
        if ltb max_request_body_bytes n
        then refused body_too_large
        else if ltb (i + 4 + n) (2 ^ 64)
        then rest
        else refused invalid_content_length)
      (h method path n)

module _ (i : ℕ) (stream taken : List ℕ) (rest : List (List ℕ))
    (h : HeaderRead i stream taken rest) where
  same_headers : take i taken ≡ take i stream
  same_headers =
      sym (take-append i taken (joined rest) (ground (arith, h.within))) ∙ ap (take i) h.whole

  then_body-read_body :
      (method path : Text) (n : ℕ)
      → then_body method path (i + 4) n (read_body (i + 4 + n) taken (arriving rest))
        ≡ then_body method path (i + 4) n (done stream)
  then_body-read_body method path n =
      let (last, goes, read) = read_body-done (i + 4 + n) taken rest stream h.full h.whole in
      ap (then_body method path (i + 4) n) goes
      ∙ body_of-BodyRead method path (i + 4) n stream last read

  after_header-whole : after_header (done (taken, i, arriving rest)) ≡ whole_request i stream
  unfolding after_header
  after_header-whole =
      check_length-eq i (parse_headers (take i taken))
        (λ expected. read_body expected taken (arriving rest)) (λ expected. done stream)
        then_body-read_body
      ∙ ap (λ headers. check_length i (parse_headers headers) (λ expected. done stream))
          same_headers

-- A request whose headers end within 64 KiB and that comes in chunks, none of them empty, is read
-- as the request that its bytes hold, wherever the bytes were cut, errors included.
pub read_request-whole :
    (chunks : List (List ℕ)) (i : ℕ)
    → AreFull chunks
    → find_header_end (joined chunks) ≡ some i
    → i + 3 ≤ max_request_header_bytes
    → read_request (arriving chunks) ≡ whole_request i (joined chunks)
unfolding read_request
read_request-whole chunks i full found small =
    let stream = joined chunks in
    let (taken, rest, goes, read) = read_header-done [] chunks stream full refl refl found small in
    ap after_header goes ∙ after_header-whole i stream taken rest read
