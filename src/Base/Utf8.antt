-- ===== src/Base/Utf8.antt =====
-- `str::from_utf8`: the well-formed sequences of bytes, without overlong forms and surrogates.
use Prim.Native.Nat.{ℕ, ◌+◌, ◌-◌, ◌*◌}
use mathlib.Core.List.{List, [], ◌∷◌}
use mathlib.Core.Bool.{Bool, true, ◌&&◌}
use mathlib.Core.Option.{Option, none, some}
use linguaray.Base.Tests.{ltb, leb, ◌==◌, if◌then◌else◌}
use linguaray.Base.Texts.{Text}

abbrev pub between : ℕ → ℕ → ℕ → Bool
between lo hi b = leb lo b && leb b hi

abbrev pub continues : ℕ → Bool
continues b = between 0x80 0xbf b

-- A character and the rest of the text, if that is well formed.
abbrev with_char : Bool → ℕ → Option Text → Option Text
with_char true c (some s) = some (c ∷ s)
with_char _ _ _ = none

-- The second byte of three or four, after the first.
abbrev pub second_of_three : ℕ → ℕ → Bool
second_of_three b0 b1 =
    if b0 == 0xe0
    then between 0xa0 0xbf b1
    else if b0 == 0xed
    then between 0x80 0x9f b1
    else between 0xe1 0xef b0 && continues b1

abbrev pub second_of_four : ℕ → ℕ → Bool
second_of_four b0 b1 =
    if b0 == 0xf0
    then between 0x90 0xbf b1
    else if b0 == 0xf4
    then between 0x80 0x8f b1
    else between 0xf1 0xf3 b0 && continues b1

unfoldable mutual
  pub from_utf8 : List ℕ → Option Text
  from_utf8 [] = some []
  from_utf8 (b ∷ bs) =
      let one = from_utf8 bs in
      let more = after_first b bs in if ltb b 0x80 then with_char true b one else more

  after_first : ℕ → List ℕ → Option Text
  after_first b0 [] = none
  after_first b0 (b1 ∷ bs) =
      let two = from_utf8 bs in
      let more = after_second b0 b1 bs in
      if between 0xc2 0xdf b0
      then with_char (continues b1) ((b0 - 0xc0) * 64 + (b1 - 0x80)) two
      else more

  after_second : ℕ → ℕ → List ℕ → Option Text
  after_second b0 b1 [] = none
  after_second b0 b1 (b2 ∷ bs) =
      let three = from_utf8 bs in
      let more = after_third b0 b1 b2 bs in
      if second_of_three b0 b1
      then with_char (continues b2) ((b0 - 0xe0) * 4096 + (b1 - 0x80) * 64 + (b2 - 0x80)) three
      else more

  after_third : ℕ → ℕ → ℕ → List ℕ → Option Text
  after_third b0 b1 b2 [] = none
  after_third b0 b1 b2 (b3 ∷ bs) =
      with_char (second_of_four b0 b1 && continues b2 && continues b3)
        ((b0 - 0xf0) * 262144 + (b1 - 0x80) * 4096 + (b2 - 0x80) * 64 + (b3 - 0x80)) (from_utf8 bs)
