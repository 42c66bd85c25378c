-- ===== src/Matching/Joins.antt =====
-- What `union` does to the forest: the roots of two places become one.
use repoauditor.Prelude.{
  ℕ, zero, suc, ltb, get_or, ◌+◌, ◌≤◌, ◌<◌, ◌≡◌, ◌≢◌, ◌⊎◌, refl, sym, subst, ap, ◌∙◌, List, ◌==◌,
  if◌then◌else◌, set, length, length-set, arith, nat_cases, inl, inr,
}
use repoauditor.Matching.Forest.{parent_of, find, union, range, start}
use repoauditor.Matching.Roots.{IsForest, parent_of-set, find_lem}

-- The labels after two trees are joined, and a depth for them.
abbrev pub joined : (ℕ → ℕ) → ℕ → ℕ → ℕ → ℕ
joined label i j k = if label k == label i then label j else label k

abbrev joined_depth : (ℕ → ℕ) → (ℕ → ℕ) → ℕ → ℕ → ℕ
joined_depth label depth i k = if label k == label i then suc (depth k) else depth k

module _ (label depth : ℕ → ℕ) (i j k : ℕ) where
  pub joined_cases :
      (label k ≡ label i) × (joined label i j k ≡ label j)
      ⊎ (label k ≢ label i) × (joined label i j k ≡ label k)
  joined_cases = elim (nat_cases (label k) (label i)) [
    | inl (b, e) ↦ inl (e, (rw b))
    | inr (b, ne) ↦ inr (ne, (rw b))
  ]

  depth_cases :
      (label k ≡ label i) × (joined_depth label depth i k ≡ suc (depth k))
      ⊎ (label k ≢ label i) × (joined_depth label depth i k ≡ depth k)
  depth_cases = elim (nat_cases (label k) (label i)) [
    | inl (b, e) ↦ inl (e, (rw b))
    | inr (b, ne) ↦ inr (ne, (rw b))
  ]

pub joined_cong :
    (label : ℕ → ℕ) (i j k l : ℕ) → label k ≡ label l → joined label i j k ≡ joined label i j l
joined_cong label i j k l e = ap (λ m. if m == label i then label j else m) e

module _ {n : ℕ} {p : List ℕ} {label depth : ℕ → ℕ} {bound : ℕ} (F : IsForest n p label depth bound)
    (i j : ℕ) (hi : i < n) (hj : j < n) where
  abbrev linked : List ℕ
  linked = set p (label i) (label j)

  link_cases :
      (k : ℕ)
      → (label i ≡ k) × (parent_of linked k ≡ label j)
        ⊎ (label i ≢ k) × (parent_of linked k ≡ parent_of p k)
  link_cases k =
      let q = parent_of-set p (label i) (label j) k (omega (arith, F.size, F.in_range i hi)) in
      elim (nat_cases (label i) k) [
        | inl (b, e) ↦ inl (e, q ∙ (rw b))
        | inr (b, ne) ↦ inr (ne, q ∙ (rw b))
      ]

  root_label : (k : ℕ) → label (label k) ≡ label k
  root_label k = F.at_root (label k) (F.label_root k)

  -- Linking a root to itself changes nothing.
  link_same : label i ≡ label j → (k : ℕ) → parent_of linked k ≡ parent_of p k
  link_same e k = elim (link_cases k) [
    | inl (a, q) ↦ q ∙ sym e ∙ a ∙ sym (subst (λ m. parent_of p m ≡ m) a (F.label_root i))
    | inr (_, q) ↦ q
  ]

  joined_same : label i ≡ label j → (k : ℕ) → joined label i j k ≡ label k
  joined_same e k = elim (joined_cases label depth i j k) [
    | inl (a, q) ↦ q ∙ sym e ∙ sym a
    | inr (_, q) ↦ q
  ]

  same-IsForest : label i ≡ label j → IsForest n linked (joined label i j) depth (suc bound)
  same-IsForest e = record {
    size = length-set p _ _ ∙ F.size;
    in_range = λ k h. rw (joined_same e k) (F.in_range k h);
    along =
        λ k. joined_cong label i j (parent_of linked k) k (ap label (link_same e k) ∙ F.along k);
    at_root = λ k h. joined_same e k ∙ F.at_root k (sym (link_same e k) ∙ h);
    falls = λ k h. rw (link_same e k) (F.falls k (λ r. h (link_same e k ∙ r)));
    root_depth = λ k h. F.root_depth k (sym (link_same e k) ∙ h);
    label_root = λ k.
        ap (λ m. parent_of linked m) (joined_same e k)
        ∙ link_same e (label k)
        ∙ F.label_root k
        ∙ sym (joined_same e k);
    bounded = λ k. omega (arith, F.bounded k);
  }

  module _ (apart : label i ≢ label j) where
    apart_root : (k : ℕ) → label i ≢ k → parent_of p k ≡ k → label k ≢ label i
    apart_root k ne h e = ne (sym e ∙ F.at_root k h)

    apart_along : (k : ℕ) → joined label i j (parent_of linked k) ≡ joined label i j k
    apart_along k = elim (link_cases k) [
      | inl (e, q) ↦
          let there : joined label i j (label j) ≡ label j =
            elim (joined_cases label depth i j (label j)) [
              | inl (_, r) ↦ r
              | inr (_, r) ↦ r ∙ root_label j
            ] in
          let here : joined label i j k ≡ label j = elim (joined_cases label depth i j k) [
            | inl (_, r) ↦ r
            | inr (ne, _) ↦ absurd (ne (ap label (sym e) ∙ root_label i))
          ] in
          ap (joined label i j) q ∙ there ∙ sym here
      | inr (_, q) ↦ joined_cong label i j (parent_of linked k) k (ap label q ∙ F.along k)
    ]

    apart_at_root : (k : ℕ) → parent_of linked k ≡ k → joined label i j k ≡ k
    apart_at_root k h = elim (link_cases k) [
      | inl (e, q) ↦ absurd (apart (e ∙ sym h ∙ q))
      | inr (ne, q) ↦ elim (joined_cases label depth i j k) [
        | inl (e, _) ↦ absurd (apart_root k ne (sym q ∙ h) e)
        | inr (_, r) ↦ r ∙ F.at_root k (sym q ∙ h)
      ]
    ]

    apart_falls :
        (k : ℕ)
        → parent_of linked k ≢ k
        → joined_depth label depth i (parent_of linked k) < joined_depth label depth i k
    apart_falls k h = elim (link_cases k) [
      | inl (e, q) ↦ rw q (
          ground (
            arith,
            root_label j,
            F.root_depth (label j) (F.label_root j),
            ap label (sym e) ∙ root_label i,
          ))
      | inr (_, q) ↦ rw q (ground (arith, F.along k, F.falls k (λ r. h (q ∙ r))))
    ]

    apart_root_depth : (k : ℕ) → parent_of linked k ≡ k → joined_depth label depth i k ≡ 0
    apart_root_depth k h = elim (link_cases k) [
      | inl (e, q) ↦ absurd (apart (e ∙ sym h ∙ q))
      | inr (ne, q) ↦ elim (depth_cases label depth i j k) [
        | inl (e, _) ↦ absurd (apart_root k ne (sym q ∙ h) e)
        | inr (_, r) ↦ r ∙ F.root_depth k (sym q ∙ h)
      ]
    ]

    still_root : (k : ℕ) → label i ≢ k → parent_of p k ≡ k → parent_of linked k ≡ k
    still_root k ne h = elim (link_cases k) [ inl (e, _) ↦ absurd (ne e) | inr (_, q) ↦ q ∙ h ]

    apart_label_root : (k : ℕ) → parent_of linked (joined label i j k) ≡ joined label i j k
    apart_label_root k = elim (joined_cases label depth i j k) [
      | inl (_, r) ↦ rw r (still_root (label j) apart (F.label_root j))
      | inr (ne, r) ↦ rw r (still_root (label k) (λ e. ne (sym e)) (F.label_root k))
    ]

    apart_IsForest : IsForest n linked (joined label i j) (joined_depth label depth i) (suc bound)
    apart_IsForest = record {
      size = length-set p _ _ ∙ F.size;
      in_range = λ k h. ground (arith, F.in_range k h, F.in_range j hj);
      along = apart_along;
      at_root = apart_at_root;
      falls = apart_falls;
      root_depth = apart_root_depth;
      label_root = apart_label_root;
      bounded = λ k. ground (arith, F.bounded k);
    }

  link-IsForest : (depth' : ℕ → ℕ) × IsForest n linked (joined label i j) depth' (suc bound)
  link-IsForest = elim (nat_cases (label i) (label j)) [
    | inl (_, e) ↦ (depth, same-IsForest e)
    | inr (_, ne) ↦ (joined_depth label depth i, apart_IsForest ne)
  ]

-- `union` joins the two trees: the label of the first becomes that of the second.
pub union-IsForest :
    {n : ℕ} {label depth : ℕ → ℕ} {bound : ℕ} (fuel : ℕ) (p : List ℕ) (i j : ℕ)
    → IsForest n p label depth bound
    → bound ≤ fuel
    → i < n
    → j < n
    → (depth' : ℕ → ℕ) × IsForest n (union fuel p i j) (joined label i j) depth' (suc bound)
unfolding union
union-IsForest {n} {label} {depth} {bound} fuel p i j F h hi hj =
    let (ej, F₁) = find_lem fuel p j F (omega (arith, F.bounded j)) in
    let (ei, F₂) = find_lem fuel (find fuel p j).1 i F₁ (omega (arith, F.bounded i)) in
    rw (ei, ej) (link-IsForest F₂ i j hi hj)

-- The starting forest, in which each place is its own root.
parent_of-range : (i m k d : ℕ) → get_or (range i m) k d ≡ (if ltb k m then i + k else d)
unfolding range
parent_of-range i zero k d = ground arith
parent_of-range i (suc m) zero d = ground arith
parent_of-range i (suc m) (suc k) d = ground (arith, parent_of-range (suc i) m k d)

length-range : (i m : ℕ) → length (range i m) ≡ m
unfolding range
length-range i zero = refl
length-range i (suc m) = ap suc (length-range (suc i) m)

pub start-IsForest : (n : ℕ) → IsForest n (start n) (λ i. i) (λ i. 0) 0
start-IsForest n = record {
  size = length-range 0 n;
  in_range = λ i h. h;
  along = own;
  at_root = λ i _. refl;
  falls = λ i h. absurd (h (own i));
  root_depth = λ i _. refl;
  label_root = own;
  bounded = λ i. omega arith;
}
  where
    own : (i : ℕ) → parent_of (start n) i ≡ i
    own i = ground (arith, parent_of-range 0 n i i)
