-- ===== src/Matching/Groups.antt =====
-- The clusters of `find_matches` in src/repoauditor/matching.py against a description of them.
use mathlib.Core.List.Perm
use mathlib.Core.List.{perm_middle}
use repoauditor.Prelude.{
  ℕ, suc, ◌+◌, ◌≤◌, ◌≡◌, ◌≢◌, ◌↔◌, refl, sym, ap, ◌∙◌, true, false, String, Option, some, none,
  List, [], ◌∷◌, ◌++◌, map, flatten, append-nil, append_assoc, Perm, ◌==◌, if◌then◌else◌, get_elem?,
  elem, arith, inl, inr, Bool-cases, nat_cases, subst, All,
}
use repoauditor.Store.{Finding}
use repoauditor.Matching.Forest.{find}
use repoauditor.Matching.Roots.{IsForest, find_lem}
use repoauditor.Matching.Classes.{Linked, same, edge, flip, chain, linked-IsPartition, label_iff}
use repoauditor.Matching.Pair.{same_issue-identity_key}
use repoauditor.Matching.Defs.{
  MatchGroup, Clusters, values, add_to, cluster_all, find_matches, linked, fuel_for,
}

-- The findings from place `i` on whose label is `r`.
abbrev pub members : (ℕ → ℕ) → ℕ → ℕ → List Finding → MatchGroup
members label r i [] = []
members label r i (f ∷ fs) =
    let rest = members label r (suc i) fs in if label i == r then f ∷ rest else rest

-- For each label not in `seen`, in the order of its first place, all the findings that have it.
abbrev pub classes : (ℕ → ℕ) → List ℕ → ℕ → List Finding → List MatchGroup
classes label seen i [] = []
classes label seen i (f ∷ fs) =
    let old = classes label seen (suc i) fs in
    let new = classes label (seen ++ label i ∷ []) (suc i) fs in
    if elem ◌==◌ (label i) seen then old else (f ∷ members label (label i) (suc i) fs) ∷ new

abbrev keys : Clusters → List ℕ
keys = map (λ c. c.0)

abbrev IsDistinct : List ℕ → Type 0
IsDistinct [] = Unit
IsDistinct (k ∷ ks) = (elem ◌==◌ k ks ≡ false) × IsDistinct ks

elem-snoc :
    (a r : ℕ) (ks : List ℕ) → elem ◌==◌ a ks ≡ false → a ≢ r → elem ◌==◌ a (ks ++ r ∷ []) ≡ false
elem-snoc a r [] h ne = ground arith
elem-snoc a r (k ∷ ks) h ne = ground (arith, elem-snoc a r ks)

IsDistinct-snoc :
    (r : ℕ) (ks : List ℕ) → elem ◌==◌ r ks ≡ false → IsDistinct ks → IsDistinct (ks ++ r ∷ [])
IsDistinct-snoc r [] h d = (refl, tt)
IsDistinct-snoc r (k ∷ ks) h d =
    (elem-snoc k r ks d.0 (ground arith), IsDistinct-snoc r ks (ground arith) d.1)

add_to-old :
    (r : ℕ) (f : Finding) (cs : Clusters)
    → elem ◌==◌ r (keys cs) ≡ true
    → keys (add_to r f cs) ≡ keys cs
unfolding add_to
add_to-old r f [] h = cc
add_to-old r f ((k, ms) ∷ cs) h = elim (nat_cases k r) [
  | inl (b, e) ↦ rw (b, add_to)
  | inr (b, ne) ↦ rw (b, add_to) (ap (λ ks. k ∷ ks) (add_to-old r f cs (ground arith)))
]

add_to-new :
    (r : ℕ) (f : Finding) (cs : Clusters)
    → elem ◌==◌ r (keys cs) ≡ false
    → add_to r f cs ≡ cs ++ (r, f ∷ []) ∷ []
unfolding add_to
add_to-new r f [] h = refl
add_to-new r f ((k, ms) ∷ cs) h = elim (nat_cases k r) [
  | inl (b, e) ↦ absurd (ground arith)
  | inr (b, ne) ↦ rw (b, add_to) (ap (λ ks. (k, ms) ∷ ks) (add_to-new r f cs (ground arith)))
]

module _ (label : ℕ → ℕ) where
  -- Each cluster with the members that the findings from place `i` on add to it.
  abbrev grown : Clusters → ℕ → List Finding → List MatchGroup
  grown cs i fs = map (λ c. c.1 ++ members label c.0 i fs) cs

  grown-absent :
      (cs : Clusters) (i : ℕ) (f : Finding) (fs : List Finding)
      → elem ◌==◌ (label i) (keys cs) ≡ false
      → grown cs i (f ∷ fs) ≡ grown cs (suc i) fs
  grown-absent [] i f fs h = refl
  grown-absent ((k, ms) ∷ cs) i f fs h = elim (nat_cases (label i) k) [
    | inl (b, e) ↦ absurd (ground arith)
    | inr (b, ne) ↦
        rw b
          (ap (λ g. (ms ++ members label k (suc i) fs) ∷ g) (grown-absent cs i f fs (ground arith)))
  ]

  grown-old :
      (cs : Clusters) (i : ℕ) (f : Finding) (fs : List Finding)
      → IsDistinct (keys cs)
      → elem ◌==◌ (label i) (keys cs) ≡ true
      → grown (add_to (label i) f cs) (suc i) fs ≡ grown cs i (f ∷ fs)
  unfolding add_to
  grown-old [] i f fs d h = cc
  grown-old ((k, ms) ∷ cs) i f fs d h = elim (nat_cases k (label i)) [
    | inl (b, e) ↦
        let b' : (label i == k) ≡ true = ground arith in
        let absent : elem ◌==◌ (label i) (keys cs) ≡ false =
          subst (λ m. elem ◌==◌ m (keys cs) ≡ false) e d.0 in
        rw (b, b')
          (cc
            (append_assoc ms (f ∷ []) (members label k (suc i) fs), grown-absent cs i f fs absent))
    | inr (b, ne) ↦
        let b' : (label i == k) ≡ false = ground arith in
        rw (b, b')
          (ap (λ g. (ms ++ members label k (suc i) fs) ∷ g)
            (grown-old cs i f fs d.1 (ground arith)))
  ]

  grown-snoc :
      (cs : Clusters) (r i : ℕ) (f : Finding) (fs : List Finding)
      → grown (cs ++ (r, f ∷ []) ∷ []) i fs ≡ grown cs i fs ++ (f ∷ members label r i fs) ∷ []
  grown-snoc [] r i f fs = refl
  grown-snoc ((k, ms) ∷ cs) r i f fs =
      ap (λ g. (ms ++ members label k i fs) ∷ g) (grown-snoc cs r i f fs)

  keys-snoc :
      (cs : Clusters) (r : ℕ) (g : MatchGroup) → keys (cs ++ (r, g) ∷ []) ≡ keys cs ++ r ∷ []
  keys-snoc [] r g = refl
  keys-snoc ((k, ms) ∷ cs) r g = ap (λ ks. k ∷ ks) (keys-snoc cs r g)

  grown-nil : (cs : Clusters) (i : ℕ) → grown cs i [] ≡ values cs
  grown-nil [] i = refl
  grown-nil ((k, ms) ∷ cs) i = cc (append-nil ms, grown-nil cs i)

  module _ {n : ℕ} {depth : ℕ → ℕ} {bound : ℕ} (fuel : ℕ) (enough : bound ≤ fuel) where
    cluster_all_lem :
        (p : List ℕ) (i : ℕ) (fs : List Finding) (cs : Clusters)
        → IsForest n p label depth bound
        → IsDistinct (keys cs)
        → values (cluster_all fuel p i fs cs) ≡ grown cs i fs ++ classes label (keys cs) i fs
    unfolding cluster_all
    cluster_all_lem p i [] cs F d = sym (append-nil (grown cs i []) ∙ grown-nil cs i)
    cluster_all_lem p i (f ∷ fs) cs F d =
        let (e, F') = find_lem fuel p i F (omega (arith, F.bounded i)) in
        let p' : List ℕ = (find fuel p i).1 in
        rw e (elim (Bool-cases (elem ◌==◌ (label i) (keys cs))) [
          | inl old ↦ rw old (
              cluster_all_lem p' (suc i) fs (add_to (label i) f cs) F'
                (rw (add_to-old (label i) f cs old) d)
              ∙ cc (grown-old cs i f fs d old, add_to-old (label i) f cs old))
          | inr new ↦
              let g : MatchGroup = f ∷ members label (label i) (suc i) fs in
              let cs' : Clusters = cs ++ (label i, f ∷ []) ∷ [] in
              let ks : List ℕ = keys cs ++ label i ∷ [] in
              let kq : keys cs' ≡ ks = keys-snoc cs (label i) (f ∷ []) in
              let ih =
                cluster_all_lem p' (suc i) fs cs' F'
                  (rw kq (IsDistinct-snoc (label i) (keys cs) new d)) in
              rw (new, add_to-new (label i) f cs new)
                (ih
                  ∙ cc (
                    grown-snoc cs (label i) (suc i) f fs,
                    kq,
                    grown-absent cs i f fs new,
                    append_assoc (grown cs i (f ∷ fs)) (g ∷ []) (classes label ks (suc i) fs),
                  ))
        ])

-- The groups of `find_matches` are the classes of a labelling under which two findings have one
-- label exactly if a chain of matching pairs links them.
pub find_matches-classes :
    (fs : List Finding)
    → (label : ℕ → ℕ) × ((i j : ℕ) → (label i ≡ label j) ↔ Linked fs i j)
      × ((find_matches fs).groups ≡ classes label [] 0 fs)
unfolding find_matches
find_matches-classes fs =
    let s = linked-IsPartition fs in
    (
      s.label,
      label_iff fs (linked fs).parent s,
      cluster_all_lem s.label (fuel_for fs) (omega (arith, s.few)) (linked fs).parent 0 fs []
          s.forest tt,
    )

add_to-perm :
    (r : ℕ) (f : Finding) (cs : Clusters)
    → Perm (flatten (values (add_to r f cs))) (f ∷ flatten (values cs))
unfolding add_to
add_to-perm r f [] = Perm.refl _
add_to-perm r f ((k, ms) ∷ cs) = elim (Bool-cases (k == r)) [
  | inl b ↦ rw (b, append_assoc) (perm_middle ms (flatten (values cs)))
  | inr b ↦
      rw b (
        Perm.trans (Perm.append_left ms (add_to-perm r f cs))
          (perm_middle ms (flatten (values cs))))
]

cluster_all-perm :
    (fuel : ℕ) (p : List ℕ) (i : ℕ) (fs : List Finding) (cs : Clusters)
    → Perm (flatten (values (cluster_all fuel p i fs cs))) (flatten (values cs) ++ fs)
unfolding cluster_all
cluster_all-perm fuel p i [] cs = rw append-nil (Perm.refl _)
cluster_all-perm fuel p i (f ∷ fs) cs =
    let (r, p') = find fuel p i in
    Perm.trans (cluster_all-perm fuel p' (suc i) fs (add_to r f cs)) (
      Perm.trans (Perm.append_right fs (add_to-perm r f cs))
        (Perm.symm (perm_middle (flatten (values cs)) fs)))

-- Each finding is in exactly one group, as often as it is in the list.
pub find_matches_perm : (fs : List Finding) → Perm (flatten (find_matches fs).groups) fs
unfolding find_matches
find_matches_perm fs = cluster_all-perm (fuel_for fs) (linked fs).parent 0 fs []

members_SameKey :
    (label : ℕ → ℕ) (key : Option String) (r i : ℕ) (fs : List Finding)
    → ((k : ℕ) (f : Finding) → get_elem? fs k ≡ some f → label (i + k) ≡ r → f.identity_key ≡ key)
    → All (λ f. f.identity_key ≡ key) (members label r i fs)
members_SameKey label key r i [] h = tt
members_SameKey label key r i (f ∷ fs) h =
    let rest =
      members_SameKey label key r (suc i) fs
        (λ k g e q. h (suc k) g e (ap label (omega arith) ∙ q)) in
    elim (nat_cases (label i) r) [
      | inl (b, e) ↦ rw b (h 0 f refl (ap label (omega arith) ∙ e), rest)
      | inr (b, _) ↦ rw b rest
    ]

-- All findings of the group carry the natural identity of its first.
abbrev pub SharesKey : MatchGroup → Type 0
SharesKey [] = Unit
SharesKey (f ∷ fs) = All (λ g. g.identity_key ≡ f.identity_key) fs

classes-SharesKey :
    (label : ℕ → ℕ) (seen : List ℕ) (i : ℕ) (fs : List Finding)
    → ((k l : ℕ) (f g : Finding)
        → get_elem? fs k ≡ some f
        → get_elem? fs l ≡ some g
        → label (i + k) ≡ label (i + l)
        → f.identity_key ≡ g.identity_key)
    → All SharesKey (classes label seen i fs)
classes-SharesKey label seen i [] h = tt
classes-SharesKey label seen i (f ∷ fs) h =
    let next =
      λ (k l : ℕ) (x y : Finding) (ex : get_elem? fs k ≡ some x) (ey : get_elem? fs l ≡ some y)
          (q : label (suc i + k) ≡ label (suc i + l)).
        h (suc k) (suc l) x y ex ey (ap label (omega arith) ∙ q ∙ ap label (omega arith)) in
    elim (Bool-cases (elem ◌==◌ (label i) seen)) [
      | inl old ↦ rw old (classes-SharesKey label seen (suc i) fs next)
      | inr new ↦ rw new (
        members_SameKey label f.identity_key (label i) (suc i) fs (λ k g e q.
            h (suc k) 0 g f e refl (ap label (omega arith) ∙ q ∙ ap label (omega arith))),
        classes-SharesKey label (seen ++ label i ∷ []) (suc i) fs next,
      )
    ]

-- The natural identity at a place, none past the end.
abbrev key_of : Option Finding → Option String
key_of none = none
key_of (some f) = f.identity_key

Linked-identity_key :
    (fs : List Finding) (i j : ℕ)
    → Linked fs i j
    → key_of (get_elem? fs i) ≡ key_of (get_elem? fs j)
Linked-identity_key fs i j (same k) = refl
Linked-identity_key fs i j (edge k l d) =
    rw (d.at_first, d.at_second) (same_issue-identity_key d.first d.second d.matches)
Linked-identity_key fs i j (flip k l h) = sym (Linked-identity_key fs k l h)
Linked-identity_key fs i j (chain k m l h h') =
    Linked-identity_key fs k m h ∙ Linked-identity_key fs m l h'

-- A group never mixes natural identities: all of its findings carry the same one, or none does.
pub find_matches-SharesKey : (fs : List Finding) → All SharesKey (find_matches fs).groups
find_matches-SharesKey fs =
    let (label, same_label, e) = find_matches-classes fs in
    rw e (
      classes-SharesKey label [] 0 fs (λ k l f g ef eg q.
        ap key_of (sym ef)
        ∙ Linked-identity_key fs k l
            ((same_label k l).0 (ap label (omega arith) ∙ q ∙ ap label (omega arith)))
        ∙ ap key_of eg))
