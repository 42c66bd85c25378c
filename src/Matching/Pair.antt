-- ===== src/Matching/Pair.antt =====
-- What `same_issue` of src/repoauditor/matching.py decides about two findings.
use repoauditor.Prelude.{
  ℕ, ◌≤◌, ◌≡◌, ◌↔◌, ◌⊎◌, ◌∙◌, sym, refl, Bool, true, false, String, Option, none, some, List, [],
  ◌∷◌, ◌||◌, str_eq, str_eq_iff, option_eq, option_eq_iff, any, max, arith,
}
use repoauditor.Store.{Finding}
use repoauditor.Matching.Cwe.{cwes_of, shared, nonempty, text_eq}
use repoauditor.Matching.Defs.{same_issue, same_unkeyed, line_overlap, same_id}

-- The lines that a finding cites.
abbrev pub Cites : Finding → ℕ → Type 0
Cites f line = (f.line_start ≤ line) × (line ≤ f.line_end)

-- Findings overlap exactly when they are on the same file and cite a common line.
pub line_overlap_iff :
    (a b : Finding)
    → a.line_start ≤ a.line_end
    → b.line_start ≤ b.line_end
    → (line_overlap a b ≡ true) ↔ ((a.file ≡ b.file) × ((line : ℕ) × Cites a line × Cites b line))
unfolding line_overlap
line_overlap_iff a b ha hb = (
  λ h. (
    (str_eq_iff a.file b.file).0 (ground arith),
    (max a.line_start b.line_start, ground arith, ground arith),
  ),
  λ (e, (line, ca, cb)). ground (arith, str_eq_iff a.file b.file),
)

str_eq_sym : (s t : String) → str_eq s t ≡ str_eq t s
str_eq_sym s t = ground (arith, str_eq_iff s t, str_eq_iff t s)

text_eq_sym : (xs ys : List ℕ) → text_eq xs ys ≡ text_eq ys xs
text_eq_sym [] [] = refl
text_eq_sym [] (y ∷ ys) = refl
text_eq_sym (x ∷ xs) [] = refl
text_eq_sym (x ∷ xs) (y ∷ ys) = ground (arith, text_eq_sym xs ys)

-- A class of `xs` occurs in `ys`.
abbrev meets : List (List ℕ) → List (List ℕ) → Bool
meets [] ys = false
meets (x ∷ xs) ys = any (text_eq x) ys || meets xs ys

nonempty-shared : (xs ys : List (List ℕ)) → nonempty (shared xs ys) ≡ meets xs ys
nonempty-shared [] ys = refl
nonempty-shared (x ∷ xs) ys = ground (arith, nonempty-shared xs ys)

meets-nil : (ys : List (List ℕ)) → meets ys [] ≡ false
meets-nil [] = refl
meets-nil (y ∷ ys) = meets-nil ys

meets-cons :
    (ys : List (List ℕ)) (x : List ℕ) (xs : List (List ℕ))
    → meets ys (x ∷ xs) ≡ (any (text_eq x) ys || meets ys xs)
meets-cons [] x xs = refl
meets-cons (y ∷ ys) x xs = ground (arith, meets-cons ys x xs, text_eq_sym x y)

meets_sym : (xs ys : List (List ℕ)) → meets xs ys ≡ meets ys xs
meets_sym [] ys = sym (meets-nil ys)
meets_sym (x ∷ xs) ys = ground (arith, meets_sym xs ys, meets-cons ys x xs)

shared_sym : (xs ys : List (List ℕ)) → nonempty (shared xs ys) ≡ nonempty (shared ys xs)
shared_sym xs ys = nonempty-shared xs ys ∙ meets_sym xs ys ∙ sym (nonempty-shared ys xs)

same_id_sym : (x y : Option ℕ) → same_id x y ≡ same_id y x
same_id_sym none none = refl
same_id_sym none (some y) = refl
same_id_sym (some x) none = refl
same_id_sym (some x) (some y) = ground arith

line_overlap_sym : (a b : Finding) → line_overlap a b ≡ line_overlap b a
unfolding line_overlap
line_overlap_sym a b = ground (arith, str_eq_sym a.file b.file)

key_eq_sym : (x y : Option String) → option_eq str_eq x y ≡ option_eq str_eq y x
key_eq_sym none none = refl
key_eq_sym none (some y) = refl
key_eq_sym (some x) none = refl
key_eq_sym (some x) (some y) = str_eq_sym x y

same_unkeyed_sym :
    (a b : Finding)
    → ((same_unkeyed a b).matched ≡ (same_unkeyed b a).matched)
      × ((same_unkeyed a b).divergence ≡ (same_unkeyed b a).divergence)
unfolding same_unkeyed
same_unkeyed_sym a b = ground (
  arith,
  shared_sym (cwes_of a) (cwes_of b),
  line_overlap_sym a b,
  same_id_sym a.entity_id b.entity_id,
)

-- Whether two findings match, and whether they diverge, does not depend on their order.
pub same_issue_sym :
    (a b : Finding)
    → ((same_issue a b).matched ≡ (same_issue b a).matched)
      × ((same_issue a b).divergence ≡ (same_issue b a).divergence)
unfolding same_issue
same_issue_sym a b = ground (arith, same_unkeyed_sym a b, key_eq_sym a.identity_key b.identity_key)

-- Findings that match carry the same natural identity, or neither carries one.
pub same_issue-identity_key :
    (a b : Finding) → (same_issue a b).matched ≡ true → a.identity_key ≡ b.identity_key
unfolding same_issue
same_issue-identity_key a b h =
    ground (arith, option_eq_iff str_eq str_eq_iff a.identity_key b.identity_key)

-- Both findings name a weakness class and no class in common.
abbrev pub CweConflict : Finding → Finding → Type 0
CweConflict a b =
    (nonempty (cwes_of a) ≡ true)
    × (nonempty (cwes_of b) ≡ true)
    × (nonempty (shared (cwes_of a) (cwes_of b)) ≡ false)

-- Two findings match exactly if they carry the same natural identity, or carry none, are not in
-- conflict about the class, and either overlap or share both a class and an entity.
pub same_issue_iff :
    (a b : Finding)
    → ((same_issue a b).matched ≡ true) ↔ (
        ((k : String) × (a.identity_key ≡ some k) × (b.identity_key ≡ some k))
        ⊎ ((a.identity_key ≡ none)
            × (b.identity_key ≡ none)
            × (¬ CweConflict a b)
            × ((line_overlap a b ≡ true)
                ⊎ ((nonempty (shared (cwes_of a) (cwes_of b)) ≡ true)
                    × ((e : ℕ) × (a.entity_id ≡ some e) × (b.entity_id ≡ some e))))))
unfolding same_issue same_unkeyed
same_issue_iff a b = (
  λ h. ground (arith, option_eq_iff str_eq str_eq_iff a.identity_key b.identity_key),
  λ h. ground (arith, option_eq_iff str_eq str_eq_iff a.identity_key b.identity_key),
)
