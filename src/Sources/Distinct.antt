-- ===== src/Sources/Distinct.antt =====
-- Lists of distinct paths, and what is behind a cut of one.
use mathlib.Core.Logic.{∥∥₁_elim}
use mathlib.Core.List.{Permᴰ}
use repoauditor.Prelude.{
  ℕ, zero, suc, ◌≡◌, refl, sym, ap, ◌∙◌, Bool, true, false, not, String, ◌&&◌, List, [], ◌∷◌, ◌++◌,
  str_eq_iff, any, elem, filter_by, take, drop, All, All-map, All-append, Perm, arith, inl, inr,
  Bool-cases,
}
use repoauditor.Prelude.Permuted.{any-permuted}
use repoauditor.Sources.Selection.{SourcePath, bucket_eq, path_eq, unselected}

bucket_eq-same : (ss ts : List String) → bucket_eq ss ts ≡ true → ss ≡ ts
bucket_eq-same [] [] h = refl
bucket_eq-same [] (t ∷ ts) h = cc
bucket_eq-same (s ∷ ss) [] h = cc
bucket_eq-same (s ∷ ss) (t ∷ ts) h =
    let a : s ≡ t = (str_eq_iff s t).0 (ground arith) in
    let b : ss ≡ ts = bucket_eq-same ss ts (ground arith) in cc (a, b)

bucket_eq_sym : (ss ts : List String) → bucket_eq ss ts ≡ bucket_eq ts ss
bucket_eq_sym [] [] = refl
bucket_eq_sym [] (t ∷ ts) = refl
bucket_eq_sym (s ∷ ss) [] = refl
bucket_eq_sym (s ∷ ss) (t ∷ ts) =
    ground (arith, bucket_eq_sym ss ts, str_eq_iff s t, str_eq_iff t s)

pub path_eq-same : (p q : SourcePath) → path_eq p q ≡ true → p ≡ q
path_eq-same p q h =
    let a : p.parents ≡ q.parents = bucket_eq-same p.parents q.parents (ground arith) in
    let b : p.stem ≡ q.stem = (str_eq_iff p.stem q.stem).0 (ground arith) in
    let c : p.suffix ≡ q.suffix = (str_eq_iff p.suffix q.suffix).0 (ground arith) in
    λ i. record { parents = a i; stem = b i; suffix = c i }

pub path_eq_sym : (p q : SourcePath) → path_eq p q ≡ path_eq q p
path_eq_sym p q = ground (
  arith,
  bucket_eq_sym p.parents q.parents,
  str_eq_iff p.stem q.stem,
  str_eq_iff q.stem p.stem,
  str_eq_iff p.suffix q.suffix,
  str_eq_iff q.suffix p.suffix,
)

-- No path occurs twice.
abbrev pub is_distinct : List SourcePath → Bool
is_distinct [] = true
is_distinct (p ∷ ps) = not (elem path_eq p ps) && is_distinct ps

swapped :
    (a b : SourcePath) (l : List SourcePath) → is_distinct (a ∷ b ∷ l) ≡ is_distinct (b ∷ a ∷ l)
swapped a b l = elim (Bool-cases (path_eq a b)) [
  | inl e ↦ let e' : path_eq b a ≡ true = path_eq_sym b a ∙ e in rw (e, e') refl
  | inr e ↦
      let e' : path_eq b a ≡ false = path_eq_sym b a ∙ e in
      rw (e, e') (exchange (elem path_eq a l) (elem path_eq b l) (is_distinct l))
]
  where
    exchange : (x y z : Bool) → (not x && (not y && z)) ≡ (not y && (not x && z))
    exchange x y z = ground arith

is_distinct-permuted : (xs ys : List SourcePath) → Permᴰ xs ys → is_distinct xs ≡ is_distinct ys
is_distinct-permuted _ _ Permᴰ.nil = refl
is_distinct-permuted (a ∷ xs) (b ∷ ys) (Permᴰ.cons e d) =
    let same : any (path_eq a) xs ≡ any (path_eq a) ys = any-permuted (path_eq a) xs ys d in
    rw (← e) (rw (same, is_distinct-permuted xs ys d) refl)
is_distinct-permuted (a ∷ b ∷ l) (a' ∷ b' ∷ l') (Permᴰ.swap e d) =
    swapped a b l ∙ (λ i. is_distinct (d i ∷ e i ∷ l))
is_distinct-permuted xs zs (Permᴰ.trans d d') =
    is_distinct-permuted xs _ d ∙ is_distinct-permuted _ zs d'

pub is_distinct-perm :
    (xs ys : List SourcePath) → Perm xs ys → is_distinct xs ≡ true → is_distinct ys ≡ true
is_distinct-perm xs ys p h =
    let prop : IsProp (is_distinct xs ≡ is_distinct ys) = hlevel in
    sym (∥∥₁_elim p prop (λ d. is_distinct-permuted xs ys d)) ∙ h

elem-filter_by :
    (q : SourcePath → Bool) (p : SourcePath) (xs : List SourcePath)
    → elem path_eq p xs ≡ false
    → elem path_eq p (filter_by q xs) ≡ false
elem-filter_by q p [] h = refl
elem-filter_by q p (x ∷ xs) h = ground (arith, elem-filter_by q p xs)

pub is_distinct-filter_by :
    (q : SourcePath → Bool) (xs : List SourcePath)
    → is_distinct xs ≡ true
    → is_distinct (filter_by q xs) ≡ true
is_distinct-filter_by q [] h = refl
is_distinct-filter_by q (x ∷ xs) h =
    ground (arith, is_distinct-filter_by q xs, elem-filter_by q x xs)

-- Nothing behind a cut occurs before it.
elem-drop :
    (p : SourcePath) (k : ℕ) (xs : List SourcePath)
    → elem path_eq p xs ≡ false
    → All (λ y. path_eq y p ≡ false) (drop k xs)
elem-drop p zero [] h = tt
elem-drop p zero (x ∷ xs) h = (path_eq_sym x p ∙ ground arith, elem-drop p zero xs (ground arith))
elem-drop p (suc k) [] h = tt
elem-drop p (suc k) (x ∷ xs) h = elem-drop p k xs (ground arith)

behind_nothing : (xs : List SourcePath) → All (λ y. elem path_eq y [] ≡ false) xs
behind_nothing [] = tt
behind_nothing (x ∷ xs) = (refl, behind_nothing xs)

pub take-drop :
    (k : ℕ) (xs : List SourcePath)
    → is_distinct xs ≡ true
    → All (λ y. elem path_eq y (take k xs) ≡ false) (drop k xs)
take-drop zero xs h = behind_nothing xs
take-drop (suc k) [] h = tt
take-drop (suc k) (x ∷ xs) h =
    both (drop k xs) (elem-drop x k xs (ground arith)) (take-drop k xs (ground arith))
  where
    both :
        (zs : List SourcePath)
        → All (λ y. path_eq y x ≡ false) zs
        → All (λ y. elem path_eq y (take k xs) ≡ false) zs
        → All (λ y. elem path_eq y (x ∷ take k xs) ≡ false) zs
    both [] a b = tt
    both (z ∷ zs) a b = (rw (a.0) (b.0), both zs a.1 b.1)

All-take : (P : SourcePath → Type 0) (n : ℕ) (xs : List SourcePath) → All P xs → All P (take n xs)
All-take P zero xs h = tt
All-take P (suc n) [] h = tt
All-take P (suc n) (x ∷ xs) h = (h.0, All-take P n xs h.1)

All-drop : (P : SourcePath → Type 0) (n : ℕ) (xs : List SourcePath) → All P xs → All P (drop n xs)
All-drop P zero xs h = h
All-drop P (suc n) [] h = tt
All-drop P (suc n) (x ∷ xs) h = All-drop P n xs h.1

apart :
    (q : SourcePath → Bool) (y : SourcePath) (zs : List SourcePath)
    → All (λ z. q z ≡ not (q y)) zs
    → elem path_eq y zs ≡ false
apart q y [] h = refl
apart q y (z ∷ zs) h = elim (Bool-cases (path_eq y z)) [
  | inl e ↦
      let same : q y ≡ q z = ap q (path_eq-same y z e) in
      let differs : q z ≡ not (q y) = h.0 in absurd (ground arith)
  | inr e ↦ rw e (apart q y zs h.1)
]

elem-append :
    (y : SourcePath) (xs zs : List SourcePath)
    → elem path_eq y xs ≡ false
    → elem path_eq y zs ≡ false
    → elem path_eq y (xs ++ zs) ≡ false
elem-append y [] zs a b = b
elem-append y (x ∷ xs) zs a b = ground (arith, elem-append y xs zs)

unselected-All :
    (selected rest : List SourcePath)
    → All (λ y. elem path_eq y selected ≡ false) rest
    → unselected selected rest ≡ rest
unselected-All selected [] h = refl
unselected-All selected (x ∷ rest) h = rw (h.0, unselected-All selected rest h.1) refl

-- Of two lists of distinct paths that a test tells apart, the parts before two cuts have no path of
-- the parts behind them.
pub unselected-drop :
    (q : SourcePath → Bool) (j k : ℕ) (xs ys : List SourcePath)
    → is_distinct xs ≡ true
    → is_distinct ys ≡ true
    → All (λ x. q x ≡ false) xs
    → All (λ y. q y ≡ true) ys
    → unselected (take j xs ++ take k ys) (drop j xs ++ drop k ys) ≡ drop j xs ++ drop k ys
unselected-drop q j k xs ys dx dy fx ty =
    unselected-All (take j xs ++ take k ys) (drop j xs ++ drop k ys) (
      All-append (λ y. elem path_eq y (take j xs ++ take k ys) ≡ false) (drop j xs) (drop k ys)
        (first (drop j xs) (take-drop j xs dx) (All-drop (λ x. q x ≡ false) j xs fx))
        (second (drop k ys) (take-drop k ys dy) (All-drop (λ y. q y ≡ true) k ys ty)))
  where
    first :
        (zs : List SourcePath)
        → All (λ y. elem path_eq y (take j xs) ≡ false) zs
        → All (λ x. q x ≡ false) zs
        → All (λ y. elem path_eq y (take j xs ++ take k ys) ≡ false) zs
    first [] a b = tt
    first (z ∷ zs) a b = (
      elem-append z (take j xs) (take k ys) a.0 (
          apart q z (take k ys) (
            All-map (λ y t. t ∙ sym (ap not b.0)) (take k ys)
              (All-take (λ y. q y ≡ true) k ys ty))),
      first zs a.1 b.1,
    )

    second :
        (zs : List SourcePath)
        → All (λ y. elem path_eq y (take k ys) ≡ false) zs
        → All (λ y. q y ≡ true) zs
        → All (λ y. elem path_eq y (take j xs ++ take k ys) ≡ false) zs
    second [] a b = tt
    second (z ∷ zs) a b = (
      elem-append z (take j xs) (take k ys)
          (apart q z (take j xs) (
            All-map (λ x f. f ∙ sym (ap not b.0)) (take j xs)
              (All-take (λ x. q x ≡ false) j xs fx)))
          a.0,
      second zs a.1 b.1,
    )
