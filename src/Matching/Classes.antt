-- ===== src/Matching/Classes.antt =====
-- The pairwise loop of `find_matches` in src/repoauditor/matching.py: at its end two findings have
-- one root exactly if a chain of matching pairs links them.
use repoauditor.Prelude.{
  ℕ, zero, suc, ◌+◌, ◌*◌, ◌≤◌, ◌<◌, ◌≡◌, ◌⊎◌, ◌↔◌, refl, sym, ap, ◌∙◌, true, false, some, List, [],
  ◌∷◌, get_elem?, drop, length, arith, inl, inr, Bool-cases, nat_cases, subst,
}
use repoauditor.Store.{Finding}
use repoauditor.Matching.Forest.{union}
use repoauditor.Matching.Roots.{IsForest}
use repoauditor.Matching.Joins.{joined, joined_cases, joined_cong, union-IsForest, start-IsForest}
use repoauditor.Matching.Defs.{Links, same_issue, visit_pair, link_rest, link_all, linked, fuel_for}

-- Place `j` stands behind place `i`, and the findings there match.
pub record IsEdge (fs : List Finding) (i j : ℕ) : Type 0 where
  pub before : i < j
  pub first : Finding
  pub second : Finding
  pub at_first : get_elem? fs i ≡ some first
  pub at_second : get_elem? fs j ≡ some second
  pub matches : (same_issue first second).matched ≡ true

-- The equivalence that the matching pairs generate.
pub data Linked (fs : List Finding) : ℕ → ℕ → Type 0 where
  same : (i : ℕ) → Linked fs i i
  edge : (i j : ℕ) → IsEdge fs i j → Linked fs i j
  flip : (i j : ℕ) → Linked fs i j → Linked fs j i
  chain : (i j k : ℕ) → Linked fs i j → Linked fs j k → Linked fs i k

drop-cons {ℓ} :
    {A : Type ℓ} (j : ℕ) (xs : List A) (x : A) (rest : List A)
    → drop j xs ≡ x ∷ rest
    → (get_elem? xs j ≡ some x) × (drop (suc j) xs ≡ rest) × (j < length xs)
drop-cons zero [] x rest h = cc
drop-cons zero (y ∷ ys) x rest h = (ground arith, ground arith, omega arith)
drop-cons (suc j) [] x rest h = cc
drop-cons (suc j) (y ∷ ys) x rest h = let (a, b, c) = drop-cons j ys x rest h in (a, b, omega arith)

drop-nil {ℓ} : {A : Type ℓ} (j : ℕ) (xs : List A) → drop j xs ≡ [] → length xs ≤ j
drop-nil zero [] h = omega arith
drop-nil zero (y ∷ ys) h = cc
drop-nil (suc j) [] h = omega arith
drop-nil (suc j) (y ∷ ys) h = omega (arith, drop-nil j ys h)

get_elem?-lt {ℓ} :
    {A : Type ℓ} (xs : List A) (i : ℕ) (a : A) → get_elem? xs i ≡ some a → i < length xs
get_elem?-lt [] i a h = cc
get_elem?-lt (x ∷ xs) zero a h = omega arith
get_elem?-lt (x ∷ xs) (suc i) a h = omega (arith, get_elem?-lt xs i a h)

pair_fits : (i j n : ℕ) → i < n → j ≤ n → i * n + j ≤ n * n
pair_fits i j n hi hj = grind arith

module _ (fs : List Finding) where
  -- Pairs up to place `j` of the round for `i` have been visited.
  abbrev Visited : ℕ → ℕ → ℕ → ℕ → Type 0
  Visited i j k l = (k < i) ⊎ ((k ≡ i) × (l < j))

  pub record IsPartition (i j : ℕ) (p : List ℕ) : Type 0 where
    pub label : ℕ → ℕ
    pub depth : ℕ → ℕ
    pub bound : ℕ
    pub forest : IsForest (length fs) p label depth bound
    pub few : bound ≤ i * length fs + j
    pub sound : (k l : ℕ) → label k ≡ label l → Linked fs k l
    pub complete : (k l : ℕ) → IsEdge fs k l → Visited i j k l → label k ≡ label l

  module _ (label : ℕ → ℕ) (i j : ℕ) (sound : (k l : ℕ) → label k ≡ label l → Linked fs k l)
      (e : Linked fs i j) where
    joined_sound : (k l : ℕ) → joined label i j k ≡ joined label i j l → Linked fs k l
    joined_sound k l h = elim (joined_cases label label i j k) [
      | inl (ek, qk) ↦ elim (joined_cases label label i j l) [
        | inl (el, ql) ↦ sound k l (ek ∙ sym el)
        | inr (_, ql) ↦ chain k i l (sound k i ek) (chain i j l e (sound j l (sym qk ∙ h ∙ ql)))
      ]
      | inr (_, qk) ↦ elim (joined_cases label label i j l) [
        | inl (el, ql) ↦
            chain k j l (sound k j (sym qk ∙ h ∙ ql))
              (chain j i l (flip i j e) (sound i l (sym el)))
        | inr (_, ql) ↦ sound k l (sym qk ∙ h ∙ ql)
      ]
    ]

    joined_ends : joined label i j i ≡ joined label i j j
    joined_ends = ground arith

  module _ (i j fuel : ℕ) (a b : Finding) (at_i : get_elem? fs i ≡ some a)
      (at_j : get_elem? fs j ≡ some b) (hi : i < j) (hj : j < length fs)
      (room : length fs * length fs ≤ fuel) where
    Visited-cases : (k l : ℕ) → Visited i (suc j) k l → Visited i j k l ⊎ ((k ≡ i) × (l ≡ j))
    Visited-cases k l (inl h) = inl (inl h)
    Visited-cases k l (inr (e, h)) = elim (nat_cases l j) [
      | inl (_, q) ↦ inr (e, q)
      | inr (_, ne) ↦ inl (inr (e, omega arith))
    ]

    edge_matches : (k l : ℕ) → IsEdge fs k l → k ≡ i → l ≡ j → (same_issue a b).matched ≡ true
    edge_matches k l d ek el =
        cc (d.at_first, d.at_second, d.matches, ap (get_elem? fs) ek, ap (get_elem? fs) el)

    matched_step :
        (p : List ℕ)
        → (same_issue a b).matched ≡ true
        → IsPartition i j p
        → IsPartition i (suc j) (union fuel p i j)
    matched_step p m s =
        let link : Linked fs i j = edge i j (record {
          before = hi;
          first = a;
          second = b;
          at_first = at_i;
          at_second = at_j;
          matches = m;
        }) in
        let (depth', F) =
          union-IsForest fuel p i j s.forest
            (omega (arith, s.few, pair_fits i j (length fs) (omega arith) (omega arith)))
            (omega arith) hj in
        record {
          label = joined s.label i j;
          depth = depth';
          bound = suc s.bound;
          forest = F;
          few = omega (arith, s.few);
          sound = joined_sound s.label i j s.sound link;
          complete = λ k l d v. elim (Visited-cases k l v) [
            | inl old ↦ joined_cong s.label i j k l (s.complete k l d old)
            | inr (ek, el) ↦ rw (ek, el) (joined_ends s.label i j s.sound link)
          ];
        }

    unmatched_step :
        (p : List ℕ)
        → (same_issue a b).matched ≡ false
        → IsPartition i j p
        → IsPartition i (suc j) p
    unmatched_step p m s = record {
      label = s.label;
      depth = s.depth;
      bound = s.bound;
      forest = s.forest;
      few = omega (arith, s.few);
      sound = s.sound;
      complete = λ k l d v. elim (Visited-cases k l v) [
        | inl old ↦ s.complete k l d old
        | inr (ek, el) ↦ cc (edge_matches k l d ek el)
      ];
    }

    visit-IsPartition :
        (s : Links)
        → IsPartition i j s.parent
        → IsPartition i (suc j) (visit_pair fuel i j a b s).parent
    unfolding visit_pair
    visit-IsPartition s h = elim (Bool-cases (same_issue a b).matched) [
      | inl m ↦ rw m (matched_step s.parent m h)
      | inr m ↦ rw m (elim (Bool-cases (same_issue a b).divergence) [
        | inl d ↦ rw d (unmatched_step s.parent m h)
        | inr d ↦ rw d (unmatched_step s.parent m h)
      ])
    ]

  module _ (fuel : ℕ) (room : length fs * length fs ≤ fuel) where
    next_round :
        (i j : ℕ) (p : List ℕ)
        → j ≤ length fs
        → length fs ≤ j
        → IsPartition i j p
        → IsPartition (suc i) (suc (suc i)) p
    next_round i j p full all s = record {
      label = s.label;
      depth = s.depth;
      bound = s.bound;
      forest = s.forest;
      few = grind (arith, s.few);
      sound = s.sound;
      complete = λ k l d v. s.complete k l d (earlier k l d v);
    }
      where
        earlier : (k l : ℕ) → IsEdge fs k l → Visited (suc i) (suc (suc i)) k l → Visited i j k l
        earlier k l d v = elim (nat_cases k i) [
          | inl (_, e) ↦ inr (e, omega (arith, get_elem?-lt fs l d.second d.at_second))
          | inr (_, ne) ↦ inl (omega (arith, d.before))
        ]

    link_rest-IsPartition :
        (i : ℕ) (a : Finding) (j : ℕ) (bs : List Finding) (s : Links)
        → get_elem? fs i ≡ some a
        → i < j
        → j ≤ length fs
        → drop j fs ≡ bs
        → IsPartition i j s.parent
        → IsPartition (suc i) (suc (suc i)) (link_rest fuel i a j bs s).parent
    unfolding link_rest
    link_rest-IsPartition i a j [] s at_i hi hj rest h =
        next_round i j s.parent hj (drop-nil j fs rest) h
    link_rest-IsPartition i a j (b ∷ bs) s at_i hi hj rest h =
        let (at_j, rest', hj') = drop-cons j fs b bs rest in
        link_rest-IsPartition i a (suc j) bs (visit_pair fuel i j a b s) at_i (omega arith) hj'
          rest' (visit-IsPartition i j fuel a b at_i at_j hi hj' room s h)

    link_all-IsPartition :
        (i : ℕ) (rest : List Finding) (s : Links)
        → i ≤ length fs
        → drop i fs ≡ rest
        → IsPartition i (suc i) s.parent
        → IsPartition (length fs) (suc (length fs)) (link_all fuel i rest s).parent
    unfolding link_all
    link_all-IsPartition i [] s hi e h =
        let q : i ≡ length fs = omega (arith, drop-nil i fs e) in
        subst (λ k. IsPartition k (suc k) s.parent) q h
    link_all-IsPartition i (a ∷ rest) s hi e h =
        let (at_i, e', hi') = drop-cons i fs a rest e in
        link_all-IsPartition (suc i) rest (link_rest fuel i a (suc i) rest s) hi' e'
          (link_rest-IsPartition i a (suc i) rest s at_i (omega arith) hi' e' h)

-- At the end of the loop two places have one root exactly if matching pairs link them.
pub linked-IsPartition :
    (fs : List Finding) → IsPartition fs (length fs) (suc (length fs)) (linked fs).parent
unfolding linked
linked-IsPartition fs =
    link_all-IsPartition fs (fuel_for fs) (omega arith) 0 fs _ (omega arith) refl (record {
      label = λ i. i;
      depth = λ i. 0;
      bound = 0;
      forest = start-IsForest (length fs);
      few = omega arith;
      sound = λ k l e. subst (Linked fs k) e (same k);
      complete = λ k l d v. absurd (omega (arith, d.before));
    })

pub label_iff :
    (fs : List Finding) (p : List ℕ) (s : IsPartition fs (length fs) (suc (length fs)) p) (k l : ℕ)
    → (s.label k ≡ s.label l) ↔ Linked fs k l
label_iff fs p s k l = (s.sound k l, together k l)
  where
    together : (k l : ℕ) → Linked fs k l → s.label k ≡ s.label l
    together k l (same i) = refl
    together k l (edge i j d) =
        s.complete i j d (inl (omega (arith, get_elem?-lt fs j d.second d.at_second, d.before)))
    together k l (flip i j h) = sym (together i j h)
    together k l (chain i j m h h') = together i j h ∙ together j m h'
