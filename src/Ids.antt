-- ===== src/Ids.antt =====
-- `next_id` of packages/runtime/rust/src/domain/glossary.rs, history.rs and vocabulary.rs: an id is
-- the clock in milliseconds and the low twelve bits of a counter, both in hexadecimal.
pub mod Digits
pub mod Search
mod Tests
use linguaray.Base.{
  ℕ, zero, suc, ◌+◌, ◌-◌, ◌/◌, ◌%◌, ◌^◌, Bool, true, false, Option, none, some, List, [], ◌∷◌, ◌++◌,
  ltb, if◌then◌else◌, Text,
}

-- one lower case hexadecimal digit
pub digit : ℕ → ℕ
digit d = if ltb d 10 then b'0' + d else b'a' + (d - 10)

-- `{:x}`; sixteen digits hold a `u64`
hex_digits : ℕ → ℕ → Text
hex_digits zero n = []
hex_digits (suc f) n =
    let rest = hex_digits f (n / 16) ++ digit (n % 16) ∷ [] in
    if ltb n 16 then digit n ∷ [] else rest

pub hex : ℕ → Text
unfolding hex_digits digit
hex n = hex_digits 16 n

-- `{:03x}` of a number below 4096
pub hex3 : ℕ → Text
unfolding digit
hex3 n = digit (n / 256) ∷ digit (n / 16 % 16) ∷ digit (n % 16) ∷ []

-- `*id_seq += 1` on a `u64`, in a release build
abbrev pub bump : ℕ → ℕ
bump seq = (seq + 1) % 2 ^ 64

pub make_id : ℕ → ℕ → Text
unfolding hex hex3
make_id millis seq = hex millis ++ hex3 (seq % 4096)

-- `millis` gives the readings of the clock, the next one at 0. The result is the id and the
-- counter that is left.
unfoldable pub next_id : ℕ → (ℕ → ℕ) → (Text → Bool) → ℕ → Option (Text × ℕ)
unfolding make_id
next_id zero millis taken seq = none
next_id (suc f) millis taken seq =
    let rest = next_id f (λ k. millis (suc k)) taken (bump seq) in
    let id = make_id (millis 0) (bump seq) in if taken id then rest else some (id, bump seq)

-- Enough for a store of fewer than 4096 ids.
abbrev pub id_fuel : ℕ
id_fuel = 4096
