-- ===== src/Base/Lossy.antt =====
-- `String::from_utf8_lossy`: every longest beginning of a character that goes wrong becomes U+FFFD.
use Prim.Native.Nat.{ℕ, zero, suc, ◌+◌, ◌-◌, ◌*◌}
use mathlib.Core.List.{List, [], ◌∷◌}
use linguaray.Base.Tests.{ltb, if◌then◌else◌}
use linguaray.Base.Lists.{drop, length}
use linguaray.Base.Texts.{Text}
use linguaray.Base.Utf8.{between, continues, second_of_three, second_of_four}

-- The byte at a place; 256, which continues nothing, behind the end.
abbrev byte_at : ℕ → List ℕ → ℕ
byte_at n [] = 256
byte_at zero (b ∷ bs) = b
byte_at (suc n) (b ∷ bs) = byte_at n bs

abbrev replacement : ℕ
replacement = 0xfffd

-- The character at the front, and how many of the bytes after the first one it takes.
abbrev char_at : ℕ → List ℕ → ℕ × ℕ
char_at b0 bs =
    let b1 = byte_at 0 bs in
    let b2 = byte_at 1 bs in
    let b3 = byte_at 2 bs in
    if ltb b0 0x80
    then (0, b0)
    else if between 0xc2 0xdf b0
    then if continues b1 then (1, (b0 - 0xc0) * 64 + (b1 - 0x80)) else (0, replacement)
    else if second_of_three b0 b1
    then if continues b2
      then (2, (b0 - 0xe0) * 4096 + (b1 - 0x80) * 64 + (b2 - 0x80))
      else (1, replacement)
    else if second_of_four b0 b1
    then if continues b2
      then if continues b3
        then (3, (b0 - 0xf0) * 262144 + (b1 - 0x80) * 4096 + (b2 - 0x80) * 64 + (b3 - 0x80))
        else (2, replacement)
      else (1, replacement)
    else (0, replacement)

-- `fuel` is the length.
abbrev decode : ℕ → List ℕ → Text
decode zero bs = []
decode (suc fuel) [] = []
decode (suc fuel) (b ∷ bs) = let s = char_at b bs in s.1 ∷ decode fuel (drop s.0 bs)

unfoldable pub from_utf8_lossy : List ℕ → Text
from_utf8_lossy bs = decode (length bs) bs
