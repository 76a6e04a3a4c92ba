-- ===== src/Base/Maps.antt =====
-- `HashMap<String, V>` and `BTreeMap<String, V>` as association lists with distinct keys. The order
-- in which a `HashMap` yields its entries is that of the list; equality of two maps ignores it.
use mathlib.Core.Path.{◌≡◌, refl}
use mathlib.Core.List.{List, [], ◌∷◌, ◌++◌}
use mathlib.Core.Logic.{inl, inr}
use mathlib.Core.Bool.{Bool, true, false, not, ◌||◌}
use mathlib.Core.Option.{Option, none, some}
use native.Mathlib.Omega.{arith}
use linguaray.Base.Tests.{if◌then◌else◌, Bool-cases}
use linguaray.Base.Lists.{any, retain, any-retain-false, any-append}
use linguaray.Base.Texts.{Text, same, same_iff}
use linguaray.Base.Keys.{Unique, Unique-retain}

abbrev pub HashMap {ℓ} : Type ℓ → Type ℓ
HashMap V = List (Text × V)

module _ {ℓ} {V : Type ℓ} where
  abbrev pub get : Text → HashMap V → Option V
  get k [] = none
  get k ((j, v) ∷ m) = if same j k then some v else get k m

  abbrev pub contains_key : Text → HashMap V → Bool
  contains_key k m = any (λ e. same e.0 k) m

  -- `insert`, and the write through `get_mut`: the value of a key that is there is replaced.
  abbrev pub insert : Text → V → HashMap V → HashMap V
  insert k v [] = (k, v) ∷ []
  insert k v ((j, w) ∷ m) =
      let rest = insert k v m in if same j k then (j, v) ∷ m else (j, w) ∷ rest

  abbrev pub remove : Text → HashMap V → HashMap V
  remove k m = retain (λ e. not (same e.0 k)) m

  -- `entry(k).or_insert_with(..)`
  abbrev pub or_insert : Text → V → HashMap V → HashMap V
  or_insert k v m = if contains_key k m then m else insert k v m

  abbrev pub KeysApart : HashMap V → Type 0
  KeysApart m = Unique (λ e. e.0) m

  pub get-insert :
      (j k : Text) (v : V) (m : HashMap V)
      → get j (insert k v m) ≡ (if same k j then some v else get j m)
  get-insert j k v [] = refl
  get-insert j k v ((i, w) ∷ m) =
      ground (arith, same_iff i k, same_iff i j, same_iff k j, get-insert j k v m)

  pub get-remove :
      (j k : Text) (m : HashMap V) → get j (remove k m) ≡ (if same k j then none else get j m)
  get-remove j k [] = ground arith
  get-remove j k ((i, w) ∷ m) =
      ground (arith, same_iff i k, same_iff i j, same_iff k j, get-remove j k m)

  pub contains_key-insert :
      (j k : Text) (v : V) (m : HashMap V)
      → contains_key j (insert k v m) ≡ same k j || contains_key j m
  contains_key-insert j k v [] = refl
  contains_key-insert j k v ((i, w) ∷ m) =
      ground (arith, same_iff i k, same_iff i j, same_iff k j, contains_key-insert j k v m)

  pub get_of_contains :
      (k : Text) (m : HashMap V) → contains_key k m ≡ true → (v : V) × (get k m ≡ some v)
  get_of_contains k [] h = cc
  get_of_contains k ((j, w) ∷ m) h = elim (Bool-cases (same j k)) [
    | inl e ↦ (w, rw e)
    | inr n ↦ let (v, g) = get_of_contains k m (ground arith) in (v, rw n g)
  ]

  pub get-none : (k : Text) (m : HashMap V) → contains_key k m ≡ false → get k m ≡ none
  get-none k [] h = refl
  get-none k ((j, w) ∷ m) h = ground (arith, get-none k m)

  pub contains_of_get :
      (k : Text) (m : HashMap V) (v : V) → get k m ≡ some v → contains_key k m ≡ true
  contains_of_get k [] v h = cc
  contains_of_get k ((j, w) ∷ m) v h = ground (arith, contains_of_get k m v)

  pub insert-KeysApart : (k : Text) (v : V) (m : HashMap V) → KeysApart m → KeysApart (insert k v m)
  insert-KeysApart k v [] u = (refl, tt)
  insert-KeysApart k v ((j, w) ∷ m) (fresh, u) = elim (Bool-cases (same j k)) [
    | inl e ↦ rw e (fresh, u)
    | inr n ↦ rw n (
      ground (arith, contains_key-insert j k v m, same_iff j k, same_iff k j),
      insert-KeysApart k v m u,
    )
  ]

  pub remove-KeysApart : (k : Text) (m : HashMap V) → KeysApart m → KeysApart (remove k m)
  remove-KeysApart k m u = Unique-retain (λ e. e.0) (λ e. not (same e.0 k)) m u

  -- What a filter does to the value of a key.
  pub get-retain :
      (p : Text × V → Bool) (k : Text) (m : HashMap V)
      → KeysApart m
      → (v : V) → get k m ≡ some v
      → get k (retain p m) ≡ (if p (k, v) then some v else none)
  get-retain p k [] u v h = cc
  get-retain p k ((j, w) ∷ m) (fresh, u) v h = elim (Bool-cases (same j k)) [
    | inl e ↦
        let fresh' : contains_key k m ≡ false = rw (← (same_iff j k).0 e) fresh in
        let gone : get k (retain p m) ≡ none =
          get-none k (retain p m) (any-retain-false p (λ e. same e.0 k) m fresh') in
        let at : j ≡ k = (same_iff j k).0 e in ground arith
    | inr n ↦ ground (arith, get-retain p k m u v)
  ]

  -- A new key goes to the end, and can be taken away again.
  pub insert_fresh :
      (k : Text) (v : V) (m : HashMap V)
      → contains_key k m ≡ false
      → insert k v m ≡ m ++ (k, v) ∷ []
  insert_fresh k v [] h = refl
  insert_fresh k v ((j, w) ∷ m) h = ground (arith, insert_fresh k v m)

  pub remove_fresh : (k : Text) (m : HashMap V) → contains_key k m ≡ false → remove k m ≡ m
  remove_fresh k [] h = refl
  remove_fresh k ((j, w) ∷ m) h = ground (arith, remove_fresh k m)

  pub remove-insert :
      (k : Text) (v : V) (m : HashMap V) → contains_key k m ≡ false → remove k (insert k v m) ≡ m
  remove-insert k v [] h = ground (arith, same_iff k k)
  remove-insert k v ((j, w) ∷ m) h = ground (arith, remove-insert k v m)

  -- The keys before and behind an entry are others.
  pub KeysApart-middle :
      (m : HashMap V) (k : Text) (v : V) (rest : HashMap V)
      → KeysApart (m ++ (k, v) ∷ rest)
      → contains_key k m ≡ false
  KeysApart-middle [] k v rest u = refl
  KeysApart-middle ((j, w) ∷ m) k v rest (fresh, u) = ground (
    arith,
    any-append (λ e. same e.0 j) m ((k, v) ∷ rest),
    same_iff k j,
    same_iff j k,
    KeysApart-middle m k v rest u,
  )

  pub contains-none : (k : Text) (m : HashMap V) → get k m ≡ none → contains_key k m ≡ false
  contains-none k [] h = refl
  contains-none k ((j, w) ∷ m) h = ground (arith, contains-none k m)
