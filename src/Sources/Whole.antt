-- ===== src/Sources/Whole.antt =====
-- A selection of src/repoauditor/sourcefiles.py that is not bounded is the whole tree.
use mathlib.Core.List.Perm
use mathlib.Core.List.{perm_append_comm}
use repoauditor.Prelude.{
  ℕ, zero, suc, ◌+◌, ◌-◌, ◌≤◌, ◌≡◌, refl, ap, subst, Bool, true, false, not, List, [], ◌∷◌, ◌++◌,
  append_assoc, length, length-append, length-take, length-drop, take, drop, take-append-drop, min,
  filter_by, filter_by-perm, All, Perm, arith,
}
use repoauditor.Sources.Selection.{
  SourcePath, Digests, iter_source_files, is_test_source, directory_diverse_order, test_slots,
  production_slots, bounded_selection, select_diverse_source_files,
}
use repoauditor.Sources.Rounds.{directory_diverse_order_perm, perm_swap_front}
use repoauditor.Sources.Shares.{
  distinct_in_order, in_order, tests_in_order, production_only, iter_source_files-is_distinct,
  length-filter_by-both, length-directory_diverse_order,
}
use repoauditor.Sources.Distinct.{is_distinct, unselected-drop}

take_all : (n : ℕ) (xs : List SourcePath) → length xs ≤ n → take n xs ≡ xs
take_all zero [] h = refl
take_all (suc n) [] h = refl
take_all zero (x ∷ xs) h = absurd (omega arith)
take_all (suc n) (x ∷ xs) h = ap (λ l. x ∷ l) (take_all n xs (omega arith))

-- (a ++ b) ++ (c ++ d) and (a ++ c) ++ (b ++ d).
middle_swapped : (a b c d : List SourcePath) → Perm ((a ++ b) ++ (c ++ d)) ((a ++ c) ++ (b ++ d))
middle_swapped a b c d =
    rw (append_assoc a b (c ++ d), append_assoc a c (b ++ d))
      (Perm.append_left a (perm_swap_front b c d))

bounded_selection_perm :
    (production tests : List SourcePath)
    → is_distinct production ≡ true
    → is_distinct tests ≡ true
    → All (λ p. is_test_source p ≡ false) production
    → All (λ p. is_test_source p ≡ true) tests
    → Perm
        (bounded_selection (length production + length tests) production tests)
        (production ++ tests)
unfolding bounded_selection
bounded_selection_perm production tests dp dt fp ft =
    let limit = length production + length tests in
    let t = test_slots limit tests in
    let p = production_slots limit production tests in
    let selected = take p production ++ take t tests in
    let rest = drop p production ++ drop t tests in
    let same = unselected-drop is_test_source p t production tests dp dt fp ft in
    let all_taken : take (limit - length selected) rest ≡ rest =
      take_all (limit - length selected) rest (
        omega (
          arith,
          length-append (drop p production) (drop t tests),
          length-drop p production,
          length-drop t tests,
          length-append (take p production) (take t tests),
          length-take p production,
          length-take t tests,
        )) in
    let step : selected ++ rest ≡ bounded_selection limit production tests =
      rw (same, all_taken) refl in
    let halves : Perm (selected ++ rest)
        ((take p production ++ drop p production) ++ (take t tests ++ drop t tests)) =
      middle_swapped (take p production) (take t tests) (drop p production) (drop t tests) in
    subst (λ xs. Perm xs (production ++ tests)) step
      (subst (λ xs. Perm (selected ++ rest) (xs ++ tests)) (take-append-drop p production)
        (subst (λ ys. Perm (selected ++ rest) ((take p production ++ drop p production) ++ ys))
          (take-append-drop t tests) halves))

-- A selection with the number of files as its limit has each file once.
pub select_diverse_source_files_perm :
    (h : Digests) (listing : List SourcePath)
    → is_distinct listing ≡ true
    → Perm
        (select_diverse_source_files h listing (length (iter_source_files listing)))
        (iter_source_files listing)
unfolding select_diverse_source_files
select_diverse_source_files_perm h listing d =
    let files = iter_source_files listing in
    let q : SourcePath → Bool = λ p. not (is_test_source p) in
    let production = directory_diverse_order h (filter_by q files) in
    let tests = directory_diverse_order h (filter_by is_test_source files) in
    let df = iter_source_files-is_distinct listing d in
    let total : length production + length tests ≡ min (length files) (length files) = omega (
      arith,
      length-filter_by-both is_test_source files,
      length-directory_diverse_order h (filter_by q files),
      length-directory_diverse_order h (filter_by is_test_source files),
    ) in
    let parts : Perm (bounded_selection (min (length files) (length files)) production tests)
        (production ++ tests) =
      subst (λ n. Perm (bounded_selection n production tests) (production ++ tests)) total
        (bounded_selection_perm production tests (distinct_in_order h q files df)
          (distinct_in_order h is_test_source files df)
          (in_order h is_test_source (filter_by q files) (production_only files))
          (tests_in_order h files)) in
    Perm.trans parts (
      Perm.trans
        (Perm.append (directory_diverse_order_perm h (filter_by q files))
          (directory_diverse_order_perm h (filter_by is_test_source files)))
        (Perm.trans (perm_append_comm (filter_by q files) (filter_by is_test_source files))
          (filter_by-perm is_test_source files)))
