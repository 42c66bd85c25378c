-- ===== src/Review/Counting.antt =====
-- `list_countable_findings` of src/repoauditor/store/db.py counts each issue once.
use repoauditor.Prelude.{
  ℕ, zero, suc, ◌≤◌, ◌≡◌, refl, sym, subst, String, some, List, [], ◌∷◌, ◌++◌, ◌==◌, ltb, elem,
  get_elem?, max_by, max_by_ge, All, inl, inr, Bool-cases,
}
use repoauditor.Store.{Finding}
use repoauditor.Matching.Defs.{MatchGroup, confidence_of, find_matches}
use repoauditor.Matching.Groups.{classes, members, find_matches-classes}
use repoauditor.Review.Tables.{ReviewStore}
use repoauditor.Review.Gate.{representatives, list_analyzable_findings, list_countable_findings}

max_by-get_elem? :
    (key : Finding → ℕ) (x : Finding) (xs : List Finding)
    → (k : ℕ) × (get_elem? (x ∷ xs) k ≡ some (max_by key x xs))
max_by-get_elem? key x [] = (0, refl)
max_by-get_elem? key x (y ∷ ys) = elim (Bool-cases (ltb (key x) (key y))) [
  | inl e ↦ let (k, h) = max_by-get_elem? key y ys in rw e (suc k, h)
  | inr e ↦ let (k, h) = max_by-get_elem? key x ys in rw e (past x y ys (max_by key x ys) k h)
]
  where
    past :
        (x y : Finding) (ys : List Finding) (m : Finding) (k : ℕ)
        → get_elem? (x ∷ ys) k ≡ some m
        → (j : ℕ) × (get_elem? (x ∷ y ∷ ys) j ≡ some m)
    past x y ys m zero h = (0, h)
    past x y ys m (suc k) h = (suc (suc k), h)

-- One representative for each group, in order: a member with the greatest confidence.
abbrev pub Counted : List MatchGroup → List Finding → Type 0
Counted [] [] = Unit
Counted [] (r ∷ rs) = ⊥
Counted (g ∷ gs) [] = ⊥
Counted (g ∷ gs) (r ∷ rs) =
    (((k : ℕ) × (get_elem? g k ≡ some r)) × All (λ f. f.confidence ≤ r.confidence) g)
    × Counted gs rs

classes-Counted :
    (label : ℕ → ℕ) (seen : List ℕ) (i : ℕ) (fs : List Finding)
    → Counted (classes label seen i fs) (representatives (classes label seen i fs))
classes-Counted label seen i [] = tt
classes-Counted label seen i (f ∷ fs) = elim (Bool-cases (elem ◌==◌ (label i) seen)) [
  | inl old ↦ rw old (classes-Counted label seen (suc i) fs)
  | inr new ↦
      let ms = members label (label i) (suc i) fs in
      let (top, others) = max_by_ge confidence_of f ms in
      rw new (
        (max_by-get_elem? confidence_of f ms, (top, others)),
        classes-Counted label (seen ++ label i ∷ []) (suc i) fs,
      )
]

-- The countable findings are one for each group of the findings that the analysis may read: a
-- member of the group, with the greatest confidence in it.
pub list_countable_findings-Counted :
    (repo_id : String) (s : ReviewStore) (rows : List Finding)
    → Counted
        (find_matches (list_analyzable_findings repo_id s rows)).groups
        (list_countable_findings repo_id s rows)
unfolding list_countable_findings
list_countable_findings-Counted repo_id s rows =
    let (label, _, e) = find_matches-classes (list_analyzable_findings repo_id s rows) in
    subst (λ gs. Counted gs (representatives gs)) (sym e) (classes-Counted label [] 0 _)
