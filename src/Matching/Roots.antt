-- ===== src/Matching/Roots.antt =====
-- What `find` and `union` of src/repoauditor/matching.py compute: each place has a root, `find`
-- returns it and keeps every root, and `union` gives two trees one root.
use repoauditor.Prelude.{
  ℕ, zero, suc, ◌≤◌, ◌<◌, ◌≡◌, ◌≢◌, ◌⊎◌, refl, sym, subst, ap, ◌∙◌, List, ◌==◌, if◌then◌else◌, set,
  length, length-set, get_or-set, get_or-ne_default, arith, nat_cases, inl, inr,
}
use repoauditor.Matching.Forest.{parent_of, find}

-- `label` gives the root of each place, `depth` falls along each edge and is at most `bound`.
pub record IsForest (n : ℕ) (p : List ℕ) (label depth : ℕ → ℕ) (bound : ℕ) : Type 0 where
  pub size : length p ≡ n
  pub in_range : (i : ℕ) → i < n → label i < n
  pub along : (i : ℕ) → label (parent_of p i) ≡ label i
  pub at_root : (i : ℕ) → parent_of p i ≡ i → label i ≡ i
  pub falls : (i : ℕ) → parent_of p i ≢ i → depth (parent_of p i) < depth i
  pub root_depth : (i : ℕ) → parent_of p i ≡ i → depth i ≡ 0
  pub label_root : (i : ℕ) → parent_of p (label i) ≡ label i
  pub bounded : (i : ℕ) → depth i ≤ bound

pub parent_of-set :
    (p : List ℕ) (i v j : ℕ)
    → i < length p
    → parent_of (set p i v) j ≡ (if i == j then v else parent_of p j)
parent_of-set p i v j h = get_or-set p i j v j h

module _ {n : ℕ} {p : List ℕ} {label depth : ℕ → ℕ} {bound : ℕ}
    (F : IsForest n p label depth bound) where
  module _ (i : ℕ) (moving : parent_of p i ≢ i) where
    abbrev halved : List ℕ
    halved = set p i (parent_of p (parent_of p i))

    inside : i < length p
    inside = get_or-ne_default p i i moving

    grand_falls : depth (parent_of p (parent_of p i)) < depth i
    grand_falls = elim (nat_cases (parent_of p (parent_of p i)) (parent_of p i)) [
      | inl (_, e) ↦ subst (λ k. depth k < depth i) (sym e) (F.falls i moving)
      | inr (_, ne) ↦ omega (arith, F.falls i moving, F.falls (parent_of p i) ne)
    ]

    abbrev grand : ℕ
    grand = parent_of p (parent_of p i)

    at_cases :
        (j : ℕ)
        → (i ≡ j) × (parent_of halved j ≡ grand) ⊎ (i ≢ j) × (parent_of halved j ≡ parent_of p j)
    at_cases j = elim (nat_cases i j) [
      | inl (b, e) ↦ inl (e, parent_of-set p i grand j inside ∙ (rw b))
      | inr (b, ne) ↦ inr (ne, parent_of-set p i grand j inside ∙ (rw b))
    ]

    pub halved_falls : depth (parent_of halved i) < depth i
    halved_falls = elim (at_cases i) [
      | inl (_, q) ↦ omega (arith, grand_falls, ap depth q)
      | inr (ne, _) ↦ absurd (ne refl)
    ]

    not_grand : (j : ℕ) → i ≡ j → parent_of halved j ≡ grand → parent_of halved j ≢ j
    not_grand j e q h = absurd (omega (arith, grand_falls, ap depth (sym q ∙ h ∙ sym e)))

    -- Path halving keeps the forest.
    pub halved-IsForest : IsForest n halved label depth bound
    halved-IsForest = record {
      size = length-set p i _ ∙ F.size;
      in_range = F.in_range;
      along = λ j. elim (at_cases j) [
        | inl (e, q) ↦ ap label q ∙ F.along (parent_of p i) ∙ F.along i ∙ ap label e
        | inr (_, q) ↦ ap label q ∙ F.along j
      ];
      at_root = λ j h. elim (at_cases j) [
        | inl (e, q) ↦ absurd (not_grand j e q h)
        | inr (_, q) ↦ F.at_root j (sym q ∙ h)
      ];
      falls = λ j h. elim (at_cases j) [
        | inl (e, q) ↦ omega (arith, grand_falls, ap depth q, ap depth e)
        | inr (_, q) ↦ omega (arith, F.falls j (λ r. h (q ∙ r)), ap depth q)
      ];
      root_depth = λ j h. elim (at_cases j) [
        | inl (e, q) ↦ absurd (not_grand j e q h)
        | inr (_, q) ↦ F.root_depth j (sym q ∙ h)
      ];
      label_root = λ j. elim (at_cases (label j)) [
        | inl (e, q) ↦ absurd (moving (subst (λ k. parent_of p k ≡ k) (sym e) (F.label_root j)))
        | inr (_, q) ↦ q ∙ F.label_root j
      ];
      bounded = F.bounded;
    }

-- With fuel for the depth of `i`, `find` returns the root of `i` and keeps the forest.
pub find_lem :
    {n : ℕ} {label depth : ℕ → ℕ} {bound : ℕ} (fuel : ℕ) (p : List ℕ) (i : ℕ)
    → IsForest n p label depth bound
    → depth i ≤ fuel
    → ((find fuel p i).0 ≡ label i) × IsForest n (find fuel p i).1 label depth bound
unfolding find
find_lem {n} {label} {depth} {bound} zero p i F h = elim (nat_cases (parent_of p i) i) [
  | inl (_, e) ↦ (sym (F.at_root i e), F)
  | inr (_, ne) ↦ absurd (omega (arith, F.falls i ne))
]
find_lem {n} {label} {depth} {bound} (suc fuel) p i F h = elim (nat_cases (parent_of p i) i) [
  | inl (b, e) ↦ rw (b, find) (sym (F.at_root i e), F)
  | inr (b, ne) ↦
      let F' : IsForest n (halved F i ne) label depth bound = halved-IsForest F i ne in
      let ih =
        find_lem fuel (halved F i ne) (parent_of (halved F i ne) i) F'
          (omega (arith, halved_falls F i ne)) in
      rw (b, find) (ih.0 ∙ F'.along i, ih.1)
]
