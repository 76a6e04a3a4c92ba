-- ===== src/Glossary/Matching/Overlap.antt =====
-- The matches that are reported: apart from one another, and none left out without a reason.
use mathlib.Core.Path.{subst}
use linguaray.Base.{
  ℕ, ◌≤◌, ◌≡◌, refl, ◌∙◌, sym, inl, inr, Bool, true, false, ◌&&◌, ◌||◌, List, [], ◌∷◌, arith, leb,
  ltb, ◌==◌, Bool-cases, any, all, all_cons, Text,
}
use linguaray.Base.Sort.{sort_by, IsSorted, sort_by-IsSorted, all-sort_by}
use linguaray.Glossary.Matching.{
  Hit, AhoCorasick, CompiledMatcher, hit_order, take_hits, raw_hits, chosen_hits,
}

-- Each hit starts where the one before it has ended, or later.
abbrev pub Apart : ℕ → List Hit → Type 0
Apart consumed [] = Unit
Apart consumed (h ∷ hs) = (consumed ≤ h.start) × Apart h.stop hs

-- `c` accounts for `h`: `h` starts inside `c`, behind its start, or with it and is no longer.
abbrev pub accounts : Hit → Hit → Bool
accounts h c =
    (ltb c.start h.start && ltb h.start c.stop) || (c.start == h.start && leb h.stop c.stop)

take_hits-Apart : (consumed : ℕ) (hs : List Hit) → Apart consumed (take_hits consumed hs)
unfolding take_hits
take_hits-Apart consumed [] = tt
take_hits-Apart consumed (h ∷ hs) = elim (Bool-cases (ltb h.start consumed)) [
  | inl e ↦ rw e (take_hits-Apart consumed hs)
  | inr n ↦ rw n (ground arith, take_hits-Apart h.stop hs)
]

all-take_hits :
    (p : Hit → Bool) (consumed : ℕ) (hs : List Hit)
    → all p hs ≡ true
    → all p (take_hits consumed hs) ≡ true
unfolding take_hits
all-take_hits p consumed [] h = refl
all-take_hits p consumed (x ∷ xs) h =
    ground (arith, all-take_hits p consumed xs, all-take_hits p x.stop xs)

-- What comes after `h` in the order and is blocked by `h` or accounted for by a later choice.
after_choice :
    (h : Hit) (chosen gs : List Hit)
    → all (hit_order h) gs ≡ true
    → all (λ g. ltb g.start h.stop || any (accounts g) chosen) gs ≡ true
    → all (λ g. any (accounts g) (h ∷ chosen)) gs ≡ true
unfolding hit_order
after_choice h chosen [] o b = refl
after_choice h chosen (g ∷ gs) o b = ground (arith, after_choice h chosen gs)

all_or : (p q : Hit → Bool) (gs : List Hit) → all q gs ≡ true → all (λ g. p g || q g) gs ≡ true
all_or p q [] h = refl
all_or p q (g ∷ gs) h = ground (arith, all_or p q gs)

take_hits_skip :
    (consumed : ℕ) (h : Hit) (hs : List Hit)
    → ltb h.start consumed ≡ true
    → take_hits consumed (h ∷ hs) ≡ take_hits consumed hs
unfolding take_hits
take_hits_skip consumed h hs e = rw e refl

take_hits_keep :
    (consumed : ℕ) (h : Hit) (hs : List Hit)
    → ltb h.start consumed ≡ false
    → take_hits consumed (h ∷ hs) ≡ h ∷ take_hits h.stop hs
unfolding take_hits
take_hits_keep consumed h hs e = rw e refl

accounts_self : (h : Hit) → accounts h h ≡ true
accounts_self h = ground arith

-- Of hits in order each one starts before `consumed`, or is accounted for.
abbrev left : ℕ → List Hit → Hit → Bool
left consumed chosen g = ltb g.start consumed || any (accounts g) chosen

take_hits-accounts :
    (consumed : ℕ) (hs : List Hit)
    → IsSorted hit_order hs
    → all (left consumed (take_hits consumed hs)) hs ≡ true
take_hits-accounts consumed [] o = refl
take_hits-accounts consumed (h ∷ hs) (o, os) = elim (Bool-cases (ltb h.start consumed)) [
  | inl e ↦
      subst (λ chosen. all (left consumed chosen) (h ∷ hs) ≡ true)
        (sym (take_hits_skip consumed h hs e))
        (all_cons (left consumed (take_hits consumed hs)) h hs (rw e refl)
          (take_hits-accounts consumed hs os))
  | inr n ↦
      let rest = take_hits h.stop hs in
      subst (λ chosen. all (left consumed chosen) (h ∷ hs) ≡ true)
        (sym (take_hits_keep consumed h hs n))
        (all_cons (left consumed (h ∷ rest)) h hs (ground (arith, accounts_self h)) (
          all_or (λ g. ltb g.start consumed) (λ g. any (accounts g) (h ∷ rest)) hs
            (after_choice h rest hs o (take_hits-accounts h.stop hs os))))
]

left_at_zero :
    (chosen gs : List Hit)
    → all (left 0 chosen) gs ≡ true
    → all (λ g. any (accounts g) chosen) gs ≡ true
left_at_zero chosen [] h = refl
left_at_zero chosen (g ∷ gs) h = ground (arith, left_at_zero chosen gs)

hit_order_total : (a b : Hit) → (hit_order a b || hit_order b a) ≡ true
unfolding hit_order
hit_order_total a b = ground arith

hit_order_trans : (a b c : Hit) → hit_order a b ≡ true → hit_order b c ≡ true → hit_order a c ≡ true
unfolding hit_order
hit_order_trans a b c h k = ground arith

module _ (ac : AhoCorasick) (m : CompiledMatcher) (text : Text) where
  -- The matches reported do not overlap and stand in the order of the text. Every hit that the
  -- automata gave at a word boundary is accounted for: it starts inside one that is reported, or
  -- with one that is reported and at least as long. What holds of all hits holds of those reported.
  pub chosen_hits_lem :
      Apart 0 (chosen_hits ac m text)
      × (all (λ g. any (accounts g) (chosen_hits ac m text)) (raw_hits ac m text) ≡ true)
      × ((p : Hit → Bool)
          → all p (raw_hits ac m text) ≡ true
          → all p (chosen_hits ac m text) ≡ true)
  chosen_hits_lem =
      let sorted = sort_by hit_order (raw_hits ac m text) in
      let chosen = take_hits 0 sorted in
      unfold chosen_hits in
      (
        take_hits-Apart 0 sorted,
        sym (all-sort_by hit_order (λ g. any (accounts g) chosen) (raw_hits ac m text))
            ∙ left_at_zero chosen sorted (
                take_hits-accounts 0 sorted (
                  sort_by-IsSorted hit_order hit_order_total hit_order_trans (raw_hits ac m text))),
        λ p h. all-take_hits p 0 sorted (all-sort_by hit_order p (raw_hits ac m text) ∙ h),
      )
