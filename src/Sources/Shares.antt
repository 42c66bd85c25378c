-- ===== src/Sources/Shares.antt =====
-- How many files a bounded selection has, and how many of them are production files at least.
use repoauditor.Prelude.{true, ap, Bool, Bool-cases, inl, inr}
use repoauditor.Prelude.{
  ℕ, zero, suc, ◌+◌, ◌-◌, ◌/◌, ◌≤◌, ◌≡◌, refl, Bool, false, not, List, [], ◌∷◌, ◌++◌, filter_by,
  length, length-append, length-take, length-drop, take, drop, min, All, All-map, All-filter_by,
  arith, inl, inr, Bool-cases,
}
use mathlib.Core.List.Perm
use repoauditor.Prelude.Permuted.{length-perm, All-perm}
use repoauditor.Sources.Selection.{
  SourcePath, Digests, iter_source_files, is_test_source, directory_diverse_order, test_slots,
  production_slots, bounded_selection, select_diverse_source_files,
}
use repoauditor.Sources.Distinct.{
  is_distinct, is_distinct-perm, is_distinct-filter_by, unselected-drop,
}
use repoauditor.Sources.Selection.{unselected}
use repoauditor.Sources.Rounds.{directory_diverse_order_perm}

length-bounded_selection :
    (limit : ℕ) (production tests : List SourcePath)
    → limit ≤ length production + length tests
    → is_distinct production ≡ true
    → is_distinct tests ≡ true
    → All (λ p. is_test_source p ≡ false) production
    → All (λ p. is_test_source p ≡ true) tests
    → length (bounded_selection limit production tests) ≡ limit
unfolding bounded_selection
length-bounded_selection limit production tests h dp dt fp tests_only =
    let t = test_slots limit tests in
    let p = production_slots limit production tests in
    let selected = take p production ++ take t tests in
    let rest = drop p production ++ drop t tests in
    let same = unselected-drop is_test_source p t production tests dp dt fp tests_only in
    rw same (
      omega (
        arith,
        length-append selected (take (limit - length selected) rest),
        length-take (limit - length selected) rest,
        length-append (drop p production) (drop t tests),
        length-drop p production,
        length-drop t tests,
        length-append (take p production) (take t tests),
        length-take p production,
        length-take t tests,
        h,
      ))

pub length-filter_by-both :
    (p : SourcePath → Bool) (xs : List SourcePath)
    → length (filter_by p xs) + length (filter_by (λ x. not (p x)) xs) ≡ length xs
length-filter_by-both p [] = refl
length-filter_by-both p (x ∷ xs) = ground (arith, length-filter_by-both p xs)

pub length-directory_diverse_order :
    (h : Digests) (ps : List SourcePath) → length (directory_diverse_order h ps) ≡ length ps
length-directory_diverse_order h ps =
    length-perm (directory_diverse_order h ps) ps (directory_diverse_order_perm h ps)

pub production_only :
    (xs : List SourcePath)
    → All (λ p. is_test_source p ≡ false) (filter_by (λ p. not (is_test_source p)) xs)
production_only xs =
    All-map (λ p h. elim (Bool-cases (is_test_source p)) [ inl e ↦ cc (rw e at h) | inr e ↦ e ])
      (filter_by (λ p. not (is_test_source p)) xs) (All-filter_by (λ p. not (is_test_source p)) xs)

pub in_order :
    (h : Digests) (q : SourcePath → Bool) (xs : List SourcePath)
    → All (λ p. q p ≡ false) xs
    → All (λ p. q p ≡ false) (directory_diverse_order h xs)
in_order h q xs a =
    All-perm q xs (directory_diverse_order h xs) (Perm.symm (directory_diverse_order_perm h xs)) a

pub tests_in_order :
    (h : Digests) (xs : List SourcePath)
    → All (λ p. is_test_source p ≡ true) (directory_diverse_order h (filter_by is_test_source xs))
tests_in_order h xs =
    All-map (λ p e. elim (Bool-cases (is_test_source p)) [ inl y ↦ y | inr y ↦ cc (rw y at e) ])
      (directory_diverse_order h (filter_by is_test_source xs))
      (in_order h (λ p. not (is_test_source p)) (filter_by is_test_source xs)
        (All-map (λ p e. ap not e) (filter_by is_test_source xs) (All-filter_by is_test_source xs)))

pub distinct_in_order :
    (h : Digests) (q : SourcePath → Bool) (xs : List SourcePath)
    → is_distinct xs ≡ true
    → is_distinct (directory_diverse_order h (filter_by q xs)) ≡ true
distinct_in_order h q xs d =
    is_distinct-perm (filter_by q xs) (directory_diverse_order h (filter_by q xs))
      (Perm.symm (directory_diverse_order_perm h (filter_by q xs))) (is_distinct-filter_by q xs d)

pub iter_source_files-is_distinct :
    (listing : List SourcePath)
    → is_distinct listing ≡ true
    → is_distinct (iter_source_files listing) ≡ true
unfolding iter_source_files
iter_source_files-is_distinct listing d = is_distinct-filter_by _ listing d

-- From a listing of distinct paths, a selection has as many files as the limit allows and the tree
-- has.
pub length-select_diverse_source_files :
    (h : Digests) (listing : List SourcePath) (limit : ℕ)
    → is_distinct listing ≡ true
    → length (select_diverse_source_files h listing limit)
      ≡ min limit (length (iter_source_files listing))
unfolding select_diverse_source_files
length-select_diverse_source_files h listing limit d =
    let files = iter_source_files listing in
    let q : SourcePath → Bool = λ p. not (is_test_source p) in
    let production = filter_by q files in
    let tests = filter_by is_test_source files in
    let df = iter_source_files-is_distinct listing d in
    length-bounded_selection (min limit (length files)) (directory_diverse_order h production)
      (directory_diverse_order h tests)
      (omega (
        arith,
        length-filter_by-both is_test_source files,
        length-directory_diverse_order h production,
        length-directory_diverse_order h tests,
      ))
      (distinct_in_order h q files df) (distinct_in_order h is_test_source files df)
      (in_order h is_test_source production (production_only files)) (tests_in_order h files)

abbrev pub count : (SourcePath → Bool) → List SourcePath → ℕ
count p xs = length (filter_by p xs)

count-append :
    (p : SourcePath → Bool) (xs ys : List SourcePath) → count p (xs ++ ys) ≡ count p xs + count p ys
count-append p [] ys = omega arith
count-append p (x ∷ xs) ys = ground (arith, count-append p xs ys)

count-take :
    (p : SourcePath → Bool) (k : ℕ) (xs : List SourcePath)
    → All (λ x. p x ≡ false) xs
    → count (λ x. not (p x)) (take k xs) ≡ min k (length xs)
count-take p zero xs h = omega arith
count-take p (suc k) [] h = omega arith
count-take p (suc k) (x ∷ xs) h = rw (h.0) (omega (arith, count-take p k xs h.1))

-- With `m` the lesser of the limit and the number of files, a selection has at least `m` less a
-- quarter of `m`, rounded down, production files, or as many as the tree has if they are fewer.
pub select_diverse_source_files_share :
    (h : Digests) (listing : List SourcePath) (limit : ℕ)
    → min (count (λ p. not (is_test_source p)) (iter_source_files listing)) (
        min limit (length (iter_source_files listing))
        - min limit (length (iter_source_files listing)) / 4)
      ≤ count (λ p. not (is_test_source p)) (select_diverse_source_files h listing limit)
unfolding select_diverse_source_files bounded_selection
select_diverse_source_files_share h listing limit =
    let files = iter_source_files listing in
    let q : SourcePath → Bool = λ p. not (is_test_source p) in
    let m = min limit (length files) in
    let production = directory_diverse_order h (filter_by q files) in
    let tests = directory_diverse_order h (filter_by is_test_source files) in
    let t = test_slots m tests in
    let p = production_slots m production tests in
    let selected = take p production ++ take t tests in
    let rest = drop p production ++ drop t tests in
    let only = in_order h is_test_source (filter_by q files) (production_only files) in
    omega (
      arith,
      count-append q selected (take (m - length selected) (unselected selected rest)),
      count-append q (take p production) (take t tests),
      count-take is_test_source p production only,
      length-directory_diverse_order h (filter_by q files),
    )
