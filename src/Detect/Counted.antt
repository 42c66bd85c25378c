-- ===== src/Detect/Counted.antt =====
-- Lists of distinct files within a tree, counted, for the plan of src/repoauditor/detect/planning.py.
use mathlib.Core.Logic.{∥∥₁_elim}
use repoauditor.Prelude.{
  ℕ, zero, suc, ◌+◌, ◌≡◌, refl, ap, ◌∙◌, subst, Bool, String, str_eq_iff, true, false, not, ◌||◌,
  List, [], ◌∷◌, ◌++◌, elem, any, filter_by, length, take, drop, Perm, arith, inl, inr, Bool-cases,
}
use repoauditor.Prelude.Permuted.{any-perm, any-permuted}
use repoauditor.Sources.Selection.{SourcePath, bucket_eq, path_eq, unselected}
use repoauditor.Sources.Distinct.{
  is_distinct, is_distinct-perm, is_distinct-filter_by, path_eq-same, path_eq_sym,
}

pub path_eq_self : (x : SourcePath) → path_eq x x ≡ true
path_eq_self x =
    let a = bucket_eq_self x.parents in
    let b = (str_eq_iff x.stem x.stem).1 refl in
    let c = (str_eq_iff x.suffix x.suffix).1 refl in rw (a, b, c) refl
  where
    bucket_eq_self : (ss : List String) → bucket_eq ss ss ≡ true
    bucket_eq_self [] = refl
    bucket_eq_self (s ∷ ss) = rw ((str_eq_iff s s).1 refl) (bucket_eq_self ss)

-- Some path of a list is no file of a tree.
abbrev pub leaves : List SourcePath → List SourcePath → Bool
leaves files = any (λ p. not (elem path_eq p files))

-- A list of distinct files of a tree.
abbrev pub Fits : List SourcePath → List SourcePath → Type 0
Fits files ps = (is_distinct ps ≡ true) × (leaves files ps ≡ false)

pub Fits-perm : (files ps qs : List SourcePath) → Perm ps qs → Fits files ps → Fits files qs
Fits-perm files ps qs r (d, l) = (is_distinct-perm ps qs r d, any-perm _ r l)

pub elem-append :
    (p : SourcePath) (xs ys : List SourcePath)
    → elem path_eq p (xs ++ ys) ≡ (elem path_eq p xs || elem path_eq p ys)
elem-append p [] ys = refl
elem-append p (x ∷ xs) ys = ground (arith, elem-append p xs ys)

elem-take :
    (p : SourcePath) (k : ℕ) (xs : List SourcePath)
    → elem path_eq p xs ≡ false
    → elem path_eq p (take k xs) ≡ false
elem-take p zero xs h = refl
elem-take p (suc k) [] h = refl
elem-take p (suc k) (x ∷ xs) h = ground (arith, elem-take p k xs)

pub Fits-take :
    (files : List SourcePath) (k : ℕ) (ps : List SourcePath)
    → Fits files ps
    → Fits files (take k ps)
Fits-take files zero ps h = (refl, refl)
Fits-take files (suc k) [] h = (refl, refl)
Fits-take files (suc k) (p ∷ ps) (d, l) =
    let (a, b) = Fits-take files k ps (ground arith, ground arith) in
    let c = elem-take p k ps (ground arith) in (ground arith, ground arith)

pub leaves-drop :
    (files : List SourcePath) (k : ℕ) (ps : List SourcePath)
    → leaves files ps ≡ false
    → leaves files (drop k ps) ≡ false
leaves-drop files zero ps h = h
leaves-drop files (suc k) [] h = h
leaves-drop files (suc k) (p ∷ ps) h = leaves-drop files k ps (ground arith)

-- A new file at the end.
pub Fits-snoc :
    (files ps : List SourcePath) (p : SourcePath)
    → Fits files ps
    → elem path_eq p ps ≡ false
    → elem path_eq p files ≡ true
    → Fits files (ps ++ p ∷ [])
Fits-snoc files [] p h n m = (refl, rw m refl)
Fits-snoc files (q ∷ ps) p (d, l) n m =
    let (a, b) = Fits-snoc files ps p (ground arith, ground arith) (ground arith) m in
    let s = path_eq_sym q p in let e = elem-append q ps (p ∷ []) in (ground arith, ground arith)

not-elem-filter_by :
    (q p : SourcePath) (xs : List SourcePath)
    → elem path_eq p xs ≡ false
    → path_eq p q ≡ true
    → length (filter_by (λ x. not (path_eq x q)) xs) ≡ length xs
not-elem-filter_by q p [] h e = refl
not-elem-filter_by q p (x ∷ xs) h e =
    let same = path_eq-same p q e in
    let other : path_eq x q ≡ false =
      path_eq_sym x q ∙ subst (λ y. path_eq y x ≡ false) same (ground arith) in
    let ih = not-elem-filter_by q p xs (ground arith) e in rw other (ap suc ih)

-- Taking a file away from a list of distinct ones takes one away.
length-without :
    (q : SourcePath) (xs : List SourcePath)
    → is_distinct xs ≡ true
    → elem path_eq q xs ≡ true
    → suc (length (filter_by (λ x. not (path_eq x q)) xs)) ≡ length xs
length-without q [] d h = cc
length-without q (x ∷ xs) d h = elim (Bool-cases (path_eq q x)) [
  | inl e ↦
      let e' : path_eq x q ≡ true = path_eq_sym x q ∙ e in
      let ih = not-elem-filter_by q x xs (ground arith) e' in rw e' (ap suc ih)
  | inr e ↦
      let e' : path_eq x q ≡ false = path_eq_sym x q ∙ e in
      let ih = length-without q xs (ground arith) (ground arith) in rw e' (ap suc ih)
]

leaves-without :
    (q : SourcePath) (files ps : List SourcePath)
    → leaves files ps ≡ false
    → elem path_eq q ps ≡ false
    → leaves (filter_by (λ x. not (path_eq x q)) files) ps ≡ false
leaves-without q files [] l n = refl
leaves-without q files (p ∷ ps) l n =
    let ih = leaves-without q files ps (ground arith) (ground arith) in
    let s = path_eq_sym p q in let h = elem-without q p files in ground arith
  where
    elem-without :
        (q p : SourcePath) (xs : List SourcePath)
        → path_eq p q ≡ false
        → elem path_eq p xs ≡ true
        → elem path_eq p (filter_by (λ x. not (path_eq x q)) xs) ≡ true
    elem-without q p [] d h = h
    elem-without q p (x ∷ xs) d h = elim (Bool-cases (path_eq p x)) [
      | inl e ↦
          let kept : path_eq x q ≡ false =
            subst (λ y. path_eq y q ≡ false) (path_eq-same p x e) d in
          rw (kept, e) refl
      | inr e ↦
          let ih = elem-without q p xs d (ground arith) in
          elim (Bool-cases (path_eq x q)) [ inl z ↦ rw z ih | inr z ↦ rw (z, e) ih ]
    ]

unselected-cons :
    (q : SourcePath) (ps xs : List SourcePath)
    → unselected (q ∷ ps) xs ≡ unselected ps (filter_by (λ x. not (path_eq x q)) xs)
unselected-cons q ps [] = refl
unselected-cons q ps (x ∷ xs) = elim (Bool-cases (path_eq x q)) [
  | inl e ↦ rw e (unselected-cons q ps xs)
  | inr e ↦ rw e (rw (unselected-cons q ps xs) refl)
]

-- Of distinct files, those not among distinct ones of them are as many as are missing.
pub length-unselected :
    (ps files : List SourcePath)
    → is_distinct files ≡ true
    → Fits files ps
    → length (unselected ps files) + length ps ≡ length files
length-unselected [] files d h = omega (arith, unselected_none files)
  where
    unselected_none : (xs : List SourcePath) → length (unselected [] xs) ≡ length xs
    unselected_none [] = refl
    unselected_none (x ∷ xs) = ap suc (unselected_none xs)
length-unselected (q ∷ ps) files d (e, l) =
    let rest = filter_by (λ x. not (path_eq x q)) files in
    let ih =
      length-unselected ps rest (is_distinct-filter_by _ files d)
        (ground arith, leaves-without q files ps (ground arith) (ground arith)) in
    let one_less = length-without q files d (ground arith) in
    rw (unselected-cons q ps files) (omega (arith, ih, one_less))

pub Fits-left : (files xs ys : List SourcePath) → Fits files (xs ++ ys) → Fits files xs
Fits-left files [] ys h = (refl, refl)
Fits-left files (x ∷ xs) ys (d, l) =
    let (a, b) = Fits-left files xs ys (ground arith, ground arith) in
    let e = elem-append x xs ys in (ground arith, ground arith)

Fits-append :
    (files xs ys : List SourcePath)
    → Fits files xs
    → Fits files ys
    → any (λ y. elem path_eq y xs) ys ≡ false
    → Fits files (xs ++ ys)
Fits-append files [] ys f g n = g
Fits-append files (x ∷ xs) ys (d, l) g n =
    let (a, b) = Fits-append files xs ys (ground arith, ground arith) g (apart_rest ys n) in
    let e = elem-append x xs ys in let o = apart_first ys n in (ground arith, ground arith)
  where
    apart_rest :
        (zs : List SourcePath)
        → any (λ y. elem path_eq y (x ∷ xs)) zs ≡ false
        → any (λ y. elem path_eq y xs) zs ≡ false
    apart_rest [] h = refl
    apart_rest (z ∷ zs) h = ground (arith, apart_rest zs)

    apart_first :
        (zs : List SourcePath)
        → any (λ y. elem path_eq y (x ∷ xs)) zs ≡ false
        → elem path_eq x zs ≡ false
    apart_first [] h = refl
    apart_first (z ∷ zs) h = ground (arith, apart_first zs, path_eq_sym x z)

-- What is not selected completes the selection.
pub Fits-unselected :
    (files ps xs : List SourcePath)
    → Fits files ps
    → Fits files xs
    → Fits files (ps ++ unselected ps xs)
Fits-unselected files ps xs f (d, l) =
    Fits-append files ps (unselected ps xs) f (is_distinct-filter_by _ xs d, leaves-filter_by xs l)
      (unselected-apart xs)
  where
    leaves-filter_by :
        (zs : List SourcePath) → leaves files zs ≡ false → leaves files (unselected ps zs) ≡ false
    leaves-filter_by [] h = h
    leaves-filter_by (z ∷ zs) h = ground (arith, leaves-filter_by zs)

    unselected-apart :
        (zs : List SourcePath) → any (λ y. elem path_eq y ps) (unselected ps zs) ≡ false
    unselected-apart [] = refl
    unselected-apart (z ∷ zs) = elim (Bool-cases (elem path_eq z ps)) [
      | inl e ↦ rw e (unselected-apart zs)
      | inr e ↦ rw e (rw e (unselected-apart zs))
    ]

-- A tree's own files are in it.
pub Fits-self : (files : List SourcePath) → is_distinct files ≡ true → Fits files files
Fits-self files d = (d, inside files files (λ p h. h))
  where
    inside :
        (zs xs : List SourcePath)
        → ((p : SourcePath) → elem path_eq p zs ≡ true → elem path_eq p xs ≡ true)
        → leaves xs zs ≡ false
    inside [] xs h = refl
    inside (z ∷ zs) xs h =
        let own : elem path_eq z xs ≡ true = h z (rw (path_eq_self z) refl) in
        rw own (inside zs xs (λ p m. h p (ground arith)))

-- The same tree in another order.
pub leaves-perm :
    (files tree ps : List SourcePath)
    → Perm files tree
    → leaves files ps ≡ false
    → leaves tree ps ≡ false
leaves-perm files tree [] p h = refl
leaves-perm files tree (x ∷ ps) p h =
    let prop : IsProp (any (path_eq x) files ≡ any (path_eq x) tree) = hlevel in
    let same = ∥∥₁_elim p prop (λ e. any-permuted (path_eq x) files tree e) in
    let ih = leaves-perm files tree ps p (ground arith) in ground arith
