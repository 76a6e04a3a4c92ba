-- ===== src/Base/Texts.antt =====
-- Rust strings as lists of Unicode scalar values, with the operations of `str` that the
-- components call.
use Prim.Native.Nat.{ℕ, ◌+◌, ◌-◌, ◌%◌, ◌^◌}
use Prim.Native.Char.{code}
use Prim.Native.String.{String}
use mathlib.Core.Path.{◌≡◌, refl}
use mathlib.Core.Logic.{◌↔◌, inl, inr}
use mathlib.Core.List.{List, [], ◌∷◌, map}
use mathlib.Core.Bool.{Bool, true, false, ◌&&◌, ◌||◌}
use mathlib.Core.Option.{Option, none, some}
use native.Mathlib.Omega.{arith}
use linguaray.Base.Tests.{ltb, leb, ◌==◌, if◌then◌else◌, Bool-cases}
use linguaray.Base.Lists.{is_empty, drop, length}

abbrev pub Text : Type 0
Text = List ℕ

-- The scalar values of a literal.
abbrev pub codes : String → Text
codes String.[] = []
codes (String.◌∷◌ c s) = code c ∷ codes s

-- `==` on `str`
unfoldable pub same : Text → Text → Bool
same [] [] = true
same (x ∷ xs) (y ∷ ys) = x == y && same xs ys
same _ _ = false

pub same_iff : (a b : Text) → (same a b ≡ true) ↔ (a ≡ b)
unfolding same
same_iff (x ∷ a) (y ∷ b) = ground (arith, same_iff a b)
same_iff _ _ = ground arith

pub same_refl : (a : Text) → same a a ≡ true
same_refl a = (same_iff a a).1 refl

-- `Ord for str`: by scalar values, which is the order of the UTF-8 bytes.
unfoldable pub le_text : Text → Text → Bool
le_text [] _ = true
le_text (x ∷ xs) [] = false
le_text (x ∷ xs) (y ∷ ys) = ltb x y || (x == y && le_text xs ys)

pub le_text_total : (a b : Text) → (le_text a b || le_text b a) ≡ true
unfolding le_text
le_text_total [] [] = refl
le_text_total [] (y ∷ b) = refl
le_text_total (x ∷ a) [] = refl
le_text_total (x ∷ a) (y ∷ b) = ground (arith, le_text_total a b)

pub le_text_trans : (a b c : Text) → le_text a b ≡ true → le_text b c ≡ true → le_text a c ≡ true
unfolding le_text
le_text_trans [] b c h k = refl
le_text_trans (x ∷ a) [] c h k = cc
le_text_trans (x ∷ a) (y ∷ b) [] h k = cc
le_text_trans (x ∷ a) (y ∷ b) (z ∷ c) h k = ground (arith, le_text_trans a b c)

pub le_text_antisymm : (a b : Text) → le_text a b ≡ true → le_text b a ≡ true → a ≡ b
unfolding le_text
le_text_antisymm [] [] h k = refl
le_text_antisymm [] (y ∷ b) h k = cc
le_text_antisymm (x ∷ a) [] h k = cc
le_text_antisymm (x ∷ a) (y ∷ b) h k = ground (arith, le_text_antisymm a b)

-- `char::is_whitespace`: the scalar values with the property White_Space.
unfoldable pub is_white : ℕ → Bool
is_white c =
    (leb 9 c && leb c 13)
    || c == 32
    || c == 0x85
    || c == 0xa0
    || c == 0x1680
    || (leb 0x2000 c && leb c 0x200a)
    || c == 0x2028
    || c == 0x2029
    || c == 0x202f
    || c == 0x205f
    || c == 0x3000

unfoldable pub trim_start : Text → Text
trim_start [] = []
trim_start (c ∷ s) = let rest = trim_start s in if is_white c then rest else c ∷ s

unfoldable pub trim_end : Text → Text
trim_end [] = []
trim_end (c ∷ s) = let rest = trim_end s in if is_white c && is_empty rest then [] else c ∷ rest

-- `str::trim`
unfoldable pub trim : Text → Text
unfolding trim_start trim_end is_white
trim s = trim_end (trim_start s)

pub trim_end_idem : (s : Text) → trim_end (trim_end s) ≡ trim_end s
unfolding trim_end
trim_end_idem [] = refl
trim_end_idem (c ∷ s) = ground (arith, trim_end_idem s)

-- What `trim_start` leaves is empty or begins with a visible character, also after `trim_end`.
abbrev Starts : Text → Type 0
Starts [] = Unit
Starts (c ∷ s) = is_white c ≡ false

Starts-trim_start : (s : Text) → Starts (trim_start s)
unfolding trim_start
Starts-trim_start [] = tt
Starts-trim_start (c ∷ s) = elim (Bool-cases (is_white c)) [
  | inl w ↦ rw w (Starts-trim_start s)
  | inr v ↦ rw v v
]

Starts-trim_end : (s : Text) → Starts s → Starts (trim_end s)
unfolding trim_end
Starts-trim_end [] h = tt
Starts-trim_end (c ∷ s) h = rw h h

trim_start_of_Starts : (s : Text) → Starts s → trim_start s ≡ s
unfolding trim_start
trim_start_of_Starts [] h = refl
trim_start_of_Starts (c ∷ s) h = rw h

pub trim_idem : (s : Text) → trim (trim s) ≡ trim s
trim_idem s =
    unfold trim in
    rw
      (trim_start_of_Starts (trim_end (trim_start s))
        (Starts-trim_end (trim_start s) (Starts-trim_start s)))
      (trim_end_idem (trim_start s))

-- `char::to_ascii_lowercase`
unfoldable pub ascii_lower : ℕ → ℕ
ascii_lower c = if leb b'A' c && leb c b'Z' then c + 32 else c

-- `str::eq_ignore_ascii_case`
unfoldable pub eq_ignore_ascii_case : Text → Text → Bool
unfolding same ascii_lower
eq_ignore_ascii_case a b = same (map ascii_lower a) (map ascii_lower b)

pub eq_ignore_ascii_case_iff :
    (a b : Text) → (eq_ignore_ascii_case a b ≡ true) ↔ (map ascii_lower a ≡ map ascii_lower b)
eq_ignore_ascii_case_iff a b =
    unfold eq_ignore_ascii_case in same_iff (map ascii_lower a) (map ascii_lower b)

-- `char::is_ascii_alphanumeric`
unfoldable pub is_ascii_alphanumeric : ℕ → Bool
is_ascii_alphanumeric c =
    (leb b'0' c && leb c b'9') || (leb b'A' c && leb c b'Z') || (leb b'a' c && leb c b'z')

-- `str::starts_with`
unfoldable pub starts_with : Text → Text → Bool
starts_with s [] = true
starts_with [] (p ∷ ps) = false
starts_with (c ∷ s) (p ∷ ps) = c == p && starts_with s ps

-- `str::contains` of a string
unfoldable pub contains : Text → Text → Bool
unfolding starts_with
contains [] needle = is_empty needle
contains (c ∷ s) needle = starts_with (c ∷ s) needle || contains s needle

-- `map(str::trim).filter(|v| !v.is_empty())` of an optional text
unfoldable pub normalize_optional : Option Text → Option Text
unfolding trim
normalize_optional none = none
normalize_optional (some v) = if is_empty (trim v) then none else some (trim v)

-- A number of elements as a `u32`: `try_into().unwrap_or(u32::MAX)`
abbrev pub to_u32 : ℕ → ℕ
to_u32 n = if ltb n (2 ^ 32) then n else 2 ^ 32 - 1

-- `+= 1` on a `u64`, in a release build
abbrev pub bump_u64 : ℕ → ℕ
bump_u64 n = (n + 1) % 2 ^ 64

-- `saturating_add(1)` on a `u64`
abbrev pub saturating_inc : ℕ → ℕ
saturating_inc n = if ltb n (2 ^ 64 - 1) then n + 1 else 2 ^ 64 - 1

-- The id that a caller gives has no blanks around it.
abbrev pub IsTrimmed : Option Text → Type 0
IsTrimmed none = Unit
IsTrimmed (some id) = trim id ≡ id

-- `char::len_utf8`
abbrev pub utf8_len : ℕ → ℕ
utf8_len c = if ltb c 0x80 then 1 else if ltb c 0x800 then 2 else if ltb c 0x10000 then 3 else 4

-- `str::strip_prefix`
abbrev pub strip_prefix : Text → Text → Option Text
strip_prefix prefix s = if starts_with s prefix then some (drop (length prefix) s) else none

-- `str::trim_end_matches` of a test on characters
unfoldable pub trim_end_matches : (ℕ → Bool) → Text → Text
trim_end_matches p [] = []
trim_end_matches p (c ∷ s) =
    let rest = trim_end_matches p s in if p c && is_empty rest then [] else c ∷ rest

-- `str::ends_with`
unfoldable pub ends_with : Text → Text → Bool
ends_with [] suffix = is_empty suffix
ends_with (c ∷ s) suffix = same (c ∷ s) suffix || ends_with s suffix
