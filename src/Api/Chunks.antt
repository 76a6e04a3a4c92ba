-- ===== src/Api/Chunks.antt =====
-- How the bytes of a request are cut into chunks makes no difference.
use linguaray.Base.{
  ℕ, ◌+◌, ◌≤◌, ◌≡◌, inl, inr, true, not, none, some, List, [], ◌∷◌, ◌++◌, map, arith, Option-cases,
  all, is_empty, length, take, Text, codes, starts_with,
}
use linguaray.Api.Reading.{
  Outcome, done, HttpRequest, Read, bytes, find_header_end, parse_headers, check_length,
}

-- The request that a stream of bytes holds, with its headers up to a place.
abbrev pub whole_request : ℕ → List ℕ → Outcome HttpRequest
whole_request i stream = check_length i (parse_headers (take i stream)) (λ expected. done stream)

abbrev pub joined : List (List ℕ) → List ℕ
joined [] = []
joined (chunk ∷ chunks) = chunk ++ joined chunks

-- No chunk is empty, since an empty read is the end of the stream.
abbrev pub AreFull : List (List ℕ) → Type 0
AreFull chunks = all (λ chunk. not (is_empty chunk)) chunks ≡ true

abbrev pub arriving : List (List ℕ) → List Read
arriving chunks = map bytes chunks

starts_with-append :
    (s rest p : Text) → length p ≤ length s → starts_with (s ++ rest) p ≡ starts_with s p
unfolding starts_with
starts_with-append [] rest [] few = ground arith
starts_with-append (c ∷ s) rest [] few = ground arith
starts_with-append [] rest (q ∷ p) few = absurd (ground arith)
starts_with-append (c ∷ s) rest (q ∷ p) few = ground (arith, starts_with-append s rest p)

length-starts_with : (s p : Text) → starts_with s p ≡ true → length p ≤ length s
unfolding starts_with
length-starts_with s [] h = ground arith
length-starts_with [] (q ∷ p) h = absurd (ground arith)
length-starts_with (c ∷ s) (q ∷ p) h = ground (arith, length-starts_with s p)

pub find_header_end-within : (s : List ℕ) {i : ℕ} → find_header_end s ≡ some i → i + 4 ≤ length s
unfolding find_header_end
find_header_end-within [] h = absurd (ground arith)
find_header_end-within (c ∷ s) {i} h = elim (Option-cases (find_header_end s)) [
  | inl absent ↦ ground (arith, length-starts_with (c ∷ s) (codes "\r\n\r\n"))
  | inr (j, found) ↦
      ground (arith, length-starts_with (c ∷ s) (codes "\r\n\r\n"), find_header_end-within s found)
]

-- A place that is found stays when more bytes come.
pub find_header_end-append :
    (s rest : List ℕ) {i : ℕ} → find_header_end s ≡ some i → find_header_end (s ++ rest) ≡ some i
unfolding find_header_end
find_header_end-append [] rest h = absurd (ground arith)
find_header_end-append (c ∷ s) rest {i} h =
    let within = find_header_end-within (c ∷ s) h in
    elim (Option-cases (find_header_end s)) [
      | inl absent ↦ ground (arith, within, starts_with-append (c ∷ s) rest (codes "\r\n\r\n"))
      | inr (j, found) ↦ ground (
        arith,
        within,
        starts_with-append (c ∷ s) rest (codes "\r\n\r\n"),
        find_header_end-append s rest found,
      )
    ]

-- A place that more bytes bring lies near the end of what was there.
pub find_header_end-late :
    (s rest : List ℕ) {i : ℕ}
    → find_header_end s ≡ none
    → find_header_end (s ++ rest) ≡ some i
    → length s ≤ i + 3
unfolding find_header_end
find_header_end-late [] rest h k = ground arith
find_header_end-late (c ∷ s) rest {i} h k = elim (Option-cases (find_header_end (s ++ rest))) [
  | inl absent ↦ ground (arith, starts_with-append (c ∷ s) rest (codes "\r\n\r\n"))
  | inr (j, found) ↦ ground (
    arith,
    starts_with-append (c ∷ s) rest (codes "\r\n\r\n"),
    find_header_end-late s rest {i = j},
  )
]
