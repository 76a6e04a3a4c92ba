-- ===== src/Exchange/Pieces.antt =====
-- Texts that are joined with a separator come apart at it again, and keep their ends under `trim`.
use linguaray.Base.{
  ℕ, ◌≡◌, refl, ap, ◌∙◌, Bool, true, false, not, List, [], ◌∷◌, ◌++◌, arith, any, is_empty, All,
  Text, trim, trim_start, trim_end, is_white, map, retain,
}
use linguaray.Exchange.{join_with, split_at, is_separator, forbidden_of}

-- The first and the last character are visible.
abbrev pub Starts : Text → Type 0
Starts [] = ⊥
Starts (c ∷ s) = is_white c ≡ false

abbrev pub Ends : Text → Type 0
Ends [] = ⊥
Ends (c ∷ []) = is_white c ≡ false
Ends (c ∷ d ∷ s) = Ends (d ∷ s)

pub record IsVisible (t : Text) : Type 0 where
  pub starts : Starts t
  pub ends : Ends t

trim_end-Ends : (t : Text) → Ends t → trim_end t ≡ t
unfolding trim_end
trim_end-Ends [] h = absurd h
trim_end-Ends (c ∷ []) h = rw h refl
trim_end-Ends (c ∷ d ∷ s) h = rw (trim_end-Ends (d ∷ s) h) (ground arith)

trim_start-Starts : (t : Text) → Starts t → trim_start t ≡ t
unfolding trim_start
trim_start-Starts [] h = absurd h
trim_start-Starts (c ∷ s) h = rw h refl

pub trim-IsVisible : (t : Text) → IsVisible t → trim t ≡ t
trim-IsVisible t v = unfold trim in rw (trim_start-Starts t v.starts) (trim_end-Ends t v.ends)

pub not_empty : (t : Text) → IsVisible t → is_empty t ≡ false
not_empty [] v = absurd v.starts
not_empty (c ∷ s) v = refl

Starts-append : (s t : Text) → Starts s → Starts (s ++ t)
Starts-append [] t h = absurd h
Starts-append (c ∷ s) t h = h

Ends-cons : (c : ℕ) (t : Text) → Ends t → Ends (c ∷ t)
Ends-cons c [] h = absurd h
Ends-cons c (d ∷ t) h = h

Ends-append : (s t : Text) → Ends t → Ends (s ++ t)
Ends-append [] t h = h
Ends-append (c ∷ s) t h = Ends-cons c (s ++ t) (Ends-append s t h)

-- Two visible texts with a separator between them
pub joined-IsVisible :
    (s : Text) (c : ℕ) (t : Text) → IsVisible s → IsVisible t → IsVisible (s ++ c ∷ t)
joined-IsVisible s c t v w = record {
  starts = Starts-append s (c ∷ t) v.starts;
  ends = Ends-append s (c ∷ t) (Ends-cons c t w.ends);
}

pub split_at-plain : (p : ℕ → Bool) (s : Text) → any p s ≡ false → split_at p s ≡ s ∷ []
unfolding split_at
split_at-plain p [] h = refl
split_at-plain p (c ∷ s) h = ground (arith, split_at-plain p s)

pub split_at-append :
    (p : ℕ → Bool) (s : Text) (c : ℕ) (t : Text)
    → any p s ≡ false
    → p c ≡ true
    → split_at p (s ++ c ∷ t) ≡ s ∷ split_at p t
unfolding split_at
split_at-append p [] c t h e = rw e refl
split_at-append p (d ∷ s) c t h e = ground (arith, split_at-append p s c t)

-- A forbidden text that the exchange keeps whole
pub record IsPiece (t : Text) : Type 0 where
  pub visible : IsVisible t
  pub whole : any is_separator t ≡ false

join-IsVisible :
    (x : Text) (xs : List Text) → All IsPiece (x ∷ xs) → IsVisible (join_with b'|' (x ∷ xs))
unfolding join_with
join-IsVisible x [] (h, hs) = h.visible
join-IsVisible x (y ∷ ys) (h, hs) =
    joined-IsVisible x b'|' (join_with b'|' (y ∷ ys)) h.visible (join-IsVisible y ys hs)

split-join :
    (x : Text) (xs : List Text)
    → All IsPiece (x ∷ xs)
    → split_at is_separator (join_with b'|' (x ∷ xs)) ≡ x ∷ xs
unfolding join_with
split-join x [] (h, hs) = split_at-plain is_separator x h.whole
split-join x (y ∷ ys) (h, hs) =
    split_at-append is_separator x b'|' (join_with b'|' (y ∷ ys)) h.whole refl
    ∙ ap (λ (rest : List Text). x ∷ rest) (split-join y ys hs)

pub trim_pieces :
    (xs : List Text) → All IsPiece xs → retain (λ v. not (is_empty v)) (map trim xs) ≡ xs
trim_pieces [] h = refl
trim_pieces (x ∷ xs) (h, hs) =
    ground (arith, trim-IsVisible x h.visible, not_empty x h.visible, trim_pieces xs hs)

nothing_joined : forbidden_of (trim (join_with b'|' [])) ≡ []
unfolding forbidden_of join_with trim split_at
nothing_joined = refl

-- What was joined comes apart again, also after the ends were trimmed.
pub forbidden_of-join :
    (xs : List Text) → All IsPiece xs → forbidden_of (trim (join_with b'|' xs)) ≡ xs
unfolding forbidden_of
forbidden_of-join [] h = nothing_joined
forbidden_of-join (x ∷ xs) h =
    rw (trim-IsVisible (join_with b'|' (x ∷ xs)) (join-IsVisible x xs h), split-join x xs h)
      (trim_pieces (x ∷ xs) h)
