-- ===== src/Api/Reading.antt =====
-- `read_request`: a request that comes in chunks. A read gives bytes, none at the end of the
-- stream, or an error.
use Prim.Native.Nat.{◌*◌}
use linguaray.Base.{
  ℕ, suc, ◌+◌, ◌-◌, ◌^◌, Bool, false, not, ◌&&◌, Option, none, some, List, [], ◌∷◌, ◌++◌, ltb, ◌==◌,
  if◌then◌else◌, is_empty, length, take, drop, Text, codes, starts_with, trim, trim_start, is_white,
  eq_ignore_ascii_case,
}
use linguaray.Base.Lossy.{from_utf8_lossy}
use linguaray.Urls.{skip_while, is_digit}

abbrev pub max_request_body_bytes : ℕ
max_request_body_bytes = 1024 * 1024

abbrev pub max_request_header_bytes : ℕ
max_request_header_bytes = 64 * 1024

pub data RequestError : Type 0 where
  read_failed empty_request headers_too_large missing_request_line missing_method missing_path :
      RequestError
  invalid_content_length body_too_large body_read_failed incomplete_body : RequestError

pub data Outcome {ℓ} (A : Type ℓ) : Type ℓ where
  done : A → Outcome A
  refused : RequestError → Outcome A

pub record HttpRequest : Type 0 where
  pub method : Text
  pub path : Text
  pub body : List ℕ

pub data Read : Type 0 where
  bytes : List ℕ → Read
  failed : Read

-- `windows(4).position(|window| window == b"\r\n\r\n")`
unfoldable pub find_header_end : List ℕ → Option ℕ
unfolding starts_with
find_header_end [] = none
find_header_end (b ∷ bs) =
    let later = find_header_end bs in
    if starts_with (b ∷ bs) (codes "\r\n\r\n")
    then some 0
    else elim later [ none ↦ none | some i ↦ some (suc i) ]

abbrev starts_line : Text → Bool
starts_line [] = false
starts_line (c ∷ s) = c == 10

abbrev cons_line : ℕ → List Text → List Text
cons_line c [] = (c ∷ []) ∷ []
cons_line c (line ∷ rest) = (c ∷ line) ∷ rest

-- `str::lines`
unfoldable pub lines : Text → List Text
lines [] = []
lines (c ∷ s) =
    let rest = lines s in
    if c == 10 then [] ∷ rest else if c == 13 && starts_line s then rest else cons_line c rest

unfoldable pub take_until : (ℕ → Bool) → Text → Text
take_until p [] = []
take_until p (c ∷ s) = let rest = take_until p s in if p c then [] else c ∷ rest

-- The next part of `split_whitespace`, and what is left
unfoldable pub next_word : Text → Option (Text × Text)
unfolding take_until skip_while trim_start is_white
next_word s =
    let t = trim_start s in
    if is_empty t then none else some (take_until is_white t, skip_while (λ c. not (is_white c)) t)

-- `split_once(':')`
unfoldable pub split_colon : Text → Option (Text × Text)
split_colon [] = none
split_colon (c ∷ s) =
    let rest = split_colon s in
    if c == b':' then some ([], s) else elim rest [ none ↦ none | some r ↦ some (c ∷ r.0, r.1) ]

unfoldable pub digits_value : ℕ → Text → Option ℕ
digits_value value [] = some value
digits_value value (c ∷ s) =
    let rest = digits_value (value * 10 + (c - b'0')) s in if is_digit c then rest else none

abbrev without_plus : Text → Text
without_plus [] = []
without_plus (c ∷ s) = if c == b'+' then s else c ∷ s

-- `parse::<usize>`
unfoldable pub parse_usize : Text → Option ℕ
unfolding digits_value
parse_usize s =
    let digits = without_plus s in
    if is_empty digits then none else elim (digits_value 0 digits) [
      | none ↦ none
      | some n ↦ if ltb n (2 ^ 64) then some n else none
    ]

-- The loop over the lines of the headers; the last length counts.
unfoldable pub content_length_of : ℕ → List Text → Outcome ℕ
unfolding split_colon parse_usize trim eq_ignore_ascii_case
content_length_of content_length [] = done content_length
content_length_of content_length (line ∷ rest) = elim (split_colon line) [
  | none ↦ content_length_of content_length rest
  | some (name, value) ↦
      if eq_ignore_ascii_case name (codes "content-length")
      then elim (parse_usize (trim value)) [
        | none ↦ refused invalid_content_length
        | some n ↦ content_length_of n rest
      ]
      else content_length_of content_length rest
]

-- The method, the path and the content length
unfoldable pub parse_headers : List ℕ → Outcome (Text × Text × ℕ)
unfolding from_utf8_lossy lines next_word take_until content_length_of
parse_headers headers = elim (lines (from_utf8_lossy headers)) [
  | [] ↦ refused missing_request_line
  | request_line ∷ rest ↦ elim (next_word request_line) [
    | none ↦ refused missing_method
    | some (method, others) ↦ elim (next_word others) [
      | none ↦ refused missing_path
      | some (raw_path, version) ↦ elim (content_length_of 0 rest) [
        | refused e ↦ refused e
        | done n ↦ done (method, take_until (λ c. c == b'?') raw_path, n)
      ]
    ]
  ]
]

-- The first loop: what was read, the place where the headers end, and the reads that are left
unfoldable pub read_header : List ℕ → List Read → Outcome (List ℕ × ℕ × List Read)
unfolding find_header_end
read_header buffer [] = refused empty_request
read_header buffer (failed ∷ reads) = refused read_failed
read_header buffer (bytes chunk ∷ reads) =
    let more = read_header (buffer ++ chunk) reads in
    if is_empty chunk then refused empty_request else elim (find_header_end (buffer ++ chunk)) [
      | some i ↦ done (buffer ++ chunk, i, reads)
      | none ↦
          if ltb max_request_header_bytes (length (buffer ++ chunk))
          then refused headers_too_large
          else more
    ]

-- The second loop: it ends when there is enough, or at the end of the stream.
unfoldable pub read_body : ℕ → List ℕ → List Read → Outcome (List ℕ)
read_body expected buffer [] = done buffer
read_body expected buffer (failed ∷ reads) =
    if ltb (length buffer) expected then refused body_read_failed else done buffer
read_body expected buffer (bytes chunk ∷ reads) =
    let more = read_body expected (buffer ++ chunk) reads in
    if ltb (length buffer) expected
    then if is_empty chunk then done buffer else more
    else done buffer

-- What follows the headers; `body_start` is where the body begins.
abbrev pub body_of : Text → Text → ℕ → ℕ → List ℕ → Outcome HttpRequest
body_of method path body_start content_length buffer =
    if ltb (length buffer) (body_start + content_length)
    then refused incomplete_body
    else done (record {
      method = method;
      path = path;
      body = take content_length (drop body_start buffer);
    })

abbrev pub then_body : Text → Text → ℕ → ℕ → Outcome (List ℕ) → Outcome HttpRequest
then_body method path body_start content_length (refused e) = refused e
then_body method path body_start content_length (done buffer) =
    body_of method path body_start content_length buffer

-- The checks between the two loops; `body` is what the second one gives for the expected length.
unfoldable pub check_length :
    ℕ → Outcome (Text × Text × ℕ) → (ℕ → Outcome (List ℕ)) → Outcome HttpRequest
check_length header_end (refused e) body = refused e
check_length header_end (done (method, path, content_length)) body =
    if ltb max_request_body_bytes content_length
    then refused body_too_large
    else if ltb (header_end + 4 + content_length) (2 ^ 64)
    then then_body method path (header_end + 4) content_length
        (body (header_end + 4 + content_length))
    else refused invalid_content_length

-- What follows the first loop
unfoldable pub after_header : Outcome (List ℕ × ℕ × List Read) → Outcome HttpRequest
unfolding parse_headers read_body check_length
after_header (refused e) = refused e
after_header (done (buffer, i, rest)) =
    check_length i (parse_headers (take i buffer)) (λ expected. read_body expected buffer rest)

unfoldable pub read_request : List Read → Outcome HttpRequest
unfolding read_header after_header
read_request reads = after_header (read_header [] reads)
