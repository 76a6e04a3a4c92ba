-- ===== src/Ids/Digits.antt =====
-- Ids of counters that differ in their low twelve bits are different.
use mathlib.Core.List.{reverse, reverse-append}
use linguaray.Base.{ℕ, ◌/◌, ◌%◌, ◌<◌, ◌≡◌, sym, ap, ◌∙◌, [], ◌∷◌, ◌++◌, arith, Text}
use linguaray.Ids.{digit, hex, make_id}

digit_inj : (a b : ℕ) → a < 16 → b < 16 → digit a ≡ digit b → a ≡ b
unfolding digit
digit_inj a b p q h = ground arith

last_three :
    (xs ys : Text) {a b c d e f : ℕ}
    → xs ++ a ∷ b ∷ c ∷ [] ≡ ys ++ d ∷ e ∷ f ∷ []
    → (a ≡ d) × (b ≡ e) × (c ≡ f)
last_three xs ys {a} {b} {c} {d} {e} {f} h =
    let back : c ∷ b ∷ a ∷ reverse xs ≡ f ∷ e ∷ d ∷ reverse ys =
      sym (reverse-append xs (a ∷ b ∷ c ∷ []))
      ∙ ap reverse h
      ∙ reverse-append ys (d ∷ e ∷ f ∷ []) in
    (cc back, cc back, cc back)

pub make_id_inj : (m n a b : ℕ) → make_id m a ≡ make_id n b → a % 4096 ≡ b % 4096
unfolding make_id
make_id_inj m n a b h =
    let (p, q, r) = last_three (hex m) (hex n) h in
    let x = digit_inj (a % 4096 / 256) (b % 4096 / 256) (omega arith) (omega arith) p in
    let y = digit_inj (a % 4096 / 16 % 16) (b % 4096 / 16 % 16) (omega arith) (omega arith) q in
    let z = digit_inj (a % 4096 % 16) (b % 4096 % 16) (omega arith) (omega arith) r in omega arith
