-- ===== src/Backup/Moving.antt =====
-- What the moves of an installation come to, name by name.
use linguaray.Base.{
  ◌≡◌, refl, ap, ◌∙◌, inl, inr, Bool, true, false, Option, none, some, List, [], ◌∷◌, arith,
  if◌then◌else◌, Bool-cases, any, Text, same, same_iff,
}
use linguaray.Backup.Install.{
  Disk, Moves, put, if_exists, Moved, save_all, install_all, remove_all, return_all,
}

abbrev pub listed : Text → List Text → Bool
listed t names = any (λ name. same name t) names

abbrev pub or_else {ℓ} : {A : Type ℓ} → Option A → Option A → Option A
or_else none b = b
or_else (some a) b = some a

abbrev pub is_some {ℓ} : {A : Type ℓ} → Option A → Bool
is_some none = false
is_some (some a) = true

-- What the first loop does to a name: it is listed if it was there and was moved.
pub record Saved {ℓ} {A : Type ℓ} (t : Text) (names : List Text) (d : Disk A) (r : Moved A)
    : Type ℓ where
  pub there : listed t r.names ≡ true → is_some (d.data_dir t) ≡ true
  pub within : listed t r.names ≡ true → listed t names ≡ true
  pub data_is : r.disk.data_dir t ≡ (if listed t r.names then none else d.data_dir t)
  pub rollback_is : r.disk.rollback t ≡ (if listed t r.names then d.data_dir t else d.rollback t)
  pub staging_is : r.disk.staging ≡ d.staging
  pub gone : r.complete ≡ true → listed t names ≡ true → r.disk.data_dir t ≡ none

module _ {ℓ} {A : Type ℓ} (t name : Text) (rest : List Text) (d : Disk A) (r : Moved A) where
  Saved-absent : d.data_dir name ≡ none → Saved t rest d r → Saved t (name ∷ rest) d r
  Saved-absent absent k = record {
    there = k.there;
    within = λ h. ground (arith, k.within);
    data_is = k.data_is;
    rollback_is = k.rollback_is;
    staging_is = k.staging_is;
    gone = λ c h. elim (Bool-cases (same name t)) [
      | inl e ↦
          let names : name ≡ t = (same_iff name t).0 e in
          k.data_is ∙ ground (arith, ap d.data_dir names)
      | inr n ↦ k.gone c (ground arith)
    ];
  }

  Saved-moved :
      (content : A)
      → d.data_dir name ≡ some content
      → Saved t rest
          (record d {
            data_dir = put name none d.data_dir;
            rollback = put name (d.data_dir name) d.rollback;
          })
          r
      → Saved t (name ∷ rest) d (record r { names = name ∷ r.names })
  Saved-moved content found k = elim (Bool-cases (same name t)) [
    | inl e ↦
        let names : d.data_dir name ≡ d.data_dir t = ap d.data_dir ((same_iff name t).0 e) in
        record {
          there = λ h. ground arith;
          within = λ h. ground arith;
          data_is = ground (arith, k.data_is);
          rollback_is = ground (arith, k.rollback_is, k.there);
          staging_is = k.staging_is;
          gone = λ c h. ground (arith, k.data_is);
        }
    | inr n ↦ record {
      there = λ h. ground (arith, k.there);
      within = λ h. ground (arith, k.within);
      data_is = ground (arith, k.data_is);
      rollback_is = ground (arith, k.rollback_is);
      staging_is = k.staging_is;
      gone = λ c h. k.gone c (ground arith);
    }
  ]

Saved-stopped {ℓ} :
    {A : Type ℓ} (t : Text) (names : List Text) (d : Disk A)
    → Saved t names d (record { complete = false; names = []; disk = d })
Saved-stopped t names d = record {
  there = λ h. cc;
  within = λ h. cc;
  data_is = refl;
  rollback_is = refl;
  staging_is = refl;
  gone = λ c h. cc;
}

pub record Installed {ℓ} {A : Type ℓ} (t : Text) (names : List Text) (d : Disk A) (r : Moved A)
    : Type ℓ where
  pub there : listed t r.names ≡ true → is_some (d.staging t) ≡ true
  pub within : listed t r.names ≡ true → listed t names ≡ true
  pub whole :
      r.complete ≡ true
      → listed t names ≡ true
      → r.disk.data_dir t ≡ or_else (d.staging t) (d.data_dir t)
  pub data_is : r.disk.data_dir t ≡ (if listed t r.names then d.staging t else d.data_dir t)
  pub rollback_is : r.disk.rollback ≡ d.rollback

module _ {ℓ} {A : Type ℓ} (t name : Text) (rest : List Text) (d : Disk A) (r : Moved A) where
  Installed-absent : d.staging name ≡ none → Installed t rest d r → Installed t (name ∷ rest) d r
  Installed-absent absent k = record {
    there = k.there;
    within = λ h. ground (arith, k.within);
    whole = λ c h. elim (Bool-cases (same name t)) [
      | inl e ↦
          let names : d.staging name ≡ d.staging t = ap d.staging ((same_iff name t).0 e) in
          k.data_is ∙ ground arith
      | inr n ↦ k.whole c (ground arith)
    ];
    data_is = k.data_is;
    rollback_is = k.rollback_is;
  }

  Installed-moved :
      (content : A)
      → d.staging name ≡ some content
      → Installed t rest
          (record d {
            data_dir = put name (d.staging name) d.data_dir;
            staging = put name none d.staging;
          })
          r
      → Installed t (name ∷ rest) d (record r { names = name ∷ r.names })
  Installed-moved content found k = elim (Bool-cases (same name t)) [
    | inl e ↦
        let names : d.staging name ≡ d.staging t = ap d.staging ((same_iff name t).0 e) in
        record {
          there = λ h. ground arith;
          within = λ h. ground arith;
          whole = λ c h. ground (arith, k.data_is, k.there);
          data_is = ground (arith, k.data_is, k.there);
          rollback_is = k.rollback_is;
        }
    | inr n ↦ record {
      there = λ h. ground (arith, k.there);
      within = λ h. ground (arith, k.within);
      whole = λ c h. ground (arith, k.whole);
      data_is = ground (arith, k.data_is);
      rollback_is = k.rollback_is;
    }
  ]

pub if_exists-ind {ℓ κ μ} :
    {A : Type ℓ} {B : Type κ} (P : B → Type μ) (o : Option A) (ok : Bool) {absent moved stays : B}
    → (o ≡ none → P absent)
    → ((a : A) → o ≡ some a → ok ≡ true → P moved)
    → ((a : A) → o ≡ some a → ok ≡ false → P stays)
    → P (if_exists o ok absent moved stays)
if_exists-ind P none ok f g h = f refl
if_exists-ind P (some a) true f g h = g a refl refl
if_exists-ind P (some a) false f g h = h a refl refl

module _ {ℓ} {A : Type ℓ} (m : Moves) (t : Text) where
  pub save_all-Saved : (names : List Text) (d : Disk A) → Saved t names d (save_all m names d)
  unfolding save_all
  save_all-Saved [] d = record {
    there = λ h. cc;
    within = λ h. cc;
    data_is = refl;
    rollback_is = refl;
    staging_is = refl;
    gone = λ c h. cc;
  }
  save_all-Saved (name ∷ rest) d =
      if_exists-ind (Saved t (name ∷ rest) d) (d.data_dir name) (m.saves name)
        (λ absent. Saved-absent t name rest d _ absent (save_all-Saved rest d))
        (λ content found moves. Saved-moved t name rest d _ content found (save_all-Saved rest _))
        (λ content found stays. Saved-stopped t (name ∷ rest) d)

  -- The second loop: a listed name was staged, and holds what was staged.
  pub install_all-Installed :
      (names : List Text) (d : Disk A) → Installed t names d (install_all m names d)
  unfolding install_all
  install_all-Installed [] d = record {
    there = λ h. cc;
    within = λ h. cc;
    whole = λ c h. cc;
    data_is = refl;
    rollback_is = refl;
  }
  install_all-Installed (name ∷ rest) d =
      if_exists-ind (Installed t (name ∷ rest) d) (d.staging name) (m.installs name)
        (λ absent. Installed-absent t name rest d _ absent (install_all-Installed rest d))
        (λ content found moves.
          Installed-moved t name rest d _ content found (install_all-Installed rest _))
        (λ content found stays. record {
          there = λ h. cc;
          within = λ h. cc;
          whole = λ c h. cc;
          data_is = refl;
          rollback_is = refl;
        })

  pub remove_all-data :
      (names : List Text) (d : Disk A)
      → ((name : Text) → m.removes name ≡ true)
      → (remove_all m names d).data_dir t ≡ (if listed t names then none else d.data_dir t)
  unfolding remove_all
  remove_all-data [] d works = refl
  remove_all-data (name ∷ rest) d works = ground (
    arith,
    works name,
    remove_all-data rest (record d { data_dir = put name none d.data_dir }) works,
  )

  pub remove_all-rollback :
      (names : List Text) (d : Disk A) → (remove_all m names d).rollback ≡ d.rollback
  unfolding remove_all
  remove_all-rollback [] d = refl
  remove_all-rollback (name ∷ rest) d = remove_all-rollback rest _ ∙ ground arith

  -- What is moved back: what lies in the rollback directory.
  pub return_all-data :
      (names : List Text) (d : Disk A)
      → ((name : Text) → m.returns name ≡ true)
      → (return_all m names d).data_dir t
        ≡ (if listed t names then or_else (d.rollback t) (d.data_dir t) else d.data_dir t)
  unfolding return_all
  return_all-data [] d works = refl
  return_all-data (name ∷ rest) d works =
      if_exists-ind {B = Disk A}
        (λ x. (return_all m rest x).data_dir t ≡ (
          if listed t (name ∷ rest) then or_else (d.rollback t) (d.data_dir t) else d.data_dir t))
        (d.rollback name) (m.returns name)
        (λ absent. return_all-data rest d works ∙ nothing_back absent)
        (λ content found moves. return_all-data rest _ works ∙ moved_back content found)
        (λ content found stays. absurd (cc (works name, stays)))
    where
      nothing_back :
          d.rollback name ≡ none
          → (if listed t rest then or_else (d.rollback t) (d.data_dir t) else d.data_dir t) ≡ (
              if listed t (name ∷ rest)
              then or_else (d.rollback t) (d.data_dir t)
              else d.data_dir t)
      nothing_back absent = elim (Bool-cases (same name t)) [
        | inl e ↦ ground (arith, ap d.rollback ((same_iff name t).0 e))
        | inr n ↦ ground arith
      ]

      moved_back :
          (content : A)
          → d.rollback name ≡ some content
          → (if listed t rest
              then or_else (put name none d.rollback t) (put name (d.rollback name) d.data_dir t)
              else put name (d.rollback name) d.data_dir t)
            ≡ (if listed t (name ∷ rest)
                then or_else (d.rollback t) (d.data_dir t)
                else d.data_dir t)
      moved_back content found = elim (Bool-cases (same name t)) [
        | inl e ↦ ground (arith, ap d.rollback ((same_iff name t).0 e))
        | inr n ↦ ground arith
      ]

  -- What cannot be moved back stays away.
  pub return_all-lost :
      (names : List Text) (d : Disk A)
      → m.returns t ≡ false
      → (return_all m names d).data_dir t ≡ d.data_dir t
  unfolding return_all
  return_all-lost [] d fails = refl
  return_all-lost (name ∷ rest) d fails =
      if_exists-ind {B = Disk A} (λ x. (return_all m rest x).data_dir t ≡ d.data_dir t)
        (d.rollback name) (m.returns name) (λ absent. return_all-lost rest d fails)
        (λ content found moves. return_all-lost rest _ fails ∙ other moves)
        (λ content found stays. return_all-lost rest d fails)
    where
      other : m.returns name ≡ true → put name (d.rollback name) d.data_dir t ≡ d.data_dir t
      other moves = elim (Bool-cases (same name t)) [
        | inl e ↦ absurd (ground (arith, ap m.returns ((same_iff name t).0 e)))
        | inr n ↦ ground arith
      ]
