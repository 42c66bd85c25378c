-- ===== src/Prelude/Rows.antt =====
-- The rows of a table that pass a test, and how a change of rows and a new row affect them.
use mathlib.Core.Path.{◌≡◌, refl, ◌∙◌, subst}
use mathlib.Core.Logic.{◌⊎◌, inl, inr}
use mathlib.Core.Bool.{Bool, true}
use mathlib.Core.List.{List, [], ◌∷◌, ◌++◌, map}
use mathlib.Core.Option.{Option, none, some}
use repoauditor.Prelude.Tests.{if◌then◌else◌, Bool-cases}
use repoauditor.Prelude.Lists.{All}

-- The first row that passes a test, and the last.
abbrev pub first_where : {A : Type 0} → (A → Bool) → List A → Option A
first_where p [] = none
first_where p (x ∷ xs) = let rest = first_where p xs in if p x then some x else rest

abbrev pub last_of : {A : Type 0} → List A → Option A
last_of [] = none
last_of (x ∷ xs) = elim (last_of xs) [ some y ↦ some y | none ↦ some x ]

-- `UPDATE ... WHERE q`, with the change of a row.
abbrev pub update_where : {A : Type 0} → (A → Bool) → (A → A) → List A → List A
update_where q f = map (λ r. if q r then f r else r)

abbrev pub changed : {A : Type 0} → (A → Bool) → (A → A) → Option A → Option A
changed q f none = none
changed q f (some r) = some (if q r then f r else r)

-- The first row of what follows when there is none before.
abbrev pub or_else : {A : Type 0} → Option A → Option A → Option A
or_else none o = o
or_else (some r) o = some r

-- An entry of a list.
abbrev pub Holds : {A : Type 0} → A → List A → Type 0
Holds a [] = ⊥
Holds a (x ∷ xs) = (a ≡ x) ⊎ Holds a xs

module _ {A : Type 0} where
  pub first_where-update :
      (p q : A → Bool) (f : A → A)
      → ((r : A) → p (f r) ≡ p r)
      → (rs : List A) → first_where p (update_where q f rs) ≡ changed q f (first_where p rs)
  first_where-update p q f k [] = refl
  first_where-update p q f k (r ∷ rs) =
      let ih = first_where-update p q f k rs in
      elim (Bool-cases (q r)) [
        | inl e ↦ elim (Bool-cases (p r)) [
          | inl y ↦ let y' = k r ∙ y in rw (e, y, y') (rw e refl)
          | inr y ↦ let y' = k r ∙ y in rw (e, y, y') ih
        ]
        | inr e ↦ elim (Bool-cases (p r)) [ inl y ↦ rw (e, y) (rw e refl) | inr y ↦ rw (e, y) ih ]
      ]

  pub first_where-append :
      (p : A → Bool) (rs qs : List A)
      → first_where p (rs ++ qs) ≡ or_else (first_where p rs) (first_where p qs)
  first_where-append p [] qs = refl
  first_where-append p (r ∷ rs) qs = elim (Bool-cases (p r)) [
    | inl y ↦ rw y refl
    | inr y ↦ rw y (first_where-append p rs qs)
  ]

  -- A row that is found passes the test, and has what all rows have.
  pub first_where-passes :
      (P : A → Type 0) (p : A → Bool) (rs : List A) (r : A)
      → first_where p rs ≡ some r
      → All P rs
      → P r × (p r ≡ true)
  first_where-passes P p [] r h a = cc
  first_where-passes P p (q ∷ rs) r h a = elim (Bool-cases (p q)) [
    | inl y ↦
        let found : some q ≡ some r = rw y at h in
        let same : q ≡ r = cc found in (subst P same a.0, subst (λ x. p x ≡ true) same y)
    | inr y ↦ first_where-passes P p rs r (rw y at h) a.1
  ]

  pub All-trivial : (rs : List A) → All {0, 0} (λ r. Unit) rs
  All-trivial [] = tt
  All-trivial (r ∷ rs) = (tt, All-trivial rs)
