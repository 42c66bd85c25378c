-- ===== src/Matching/Forest.antt =====
-- The union-find forest inside `find_matches` of src/repoauditor/matching.py: `find` with path
-- halving, and `union`. The list `parent` of the source is a list of numbers.
use repoauditor.Prelude.{ℕ, zero, suc, true, false, List, [], ◌∷◌, ◌==◌, get_or, set}

-- `parent[i]`; a place past the end, which the source never reads, counts as a root.
abbrev pub parent_of : List ℕ → ℕ → ℕ
parent_of p i = get_or p i i

-- `list(range(n))`, from `i` on.
unfoldable pub range : ℕ → ℕ → List ℕ
range i zero = []
range i (suc n) = i ∷ range (suc i) n

abbrev pub start : ℕ → List ℕ
start n = range 0 n

-- The `while` loop of `find`, with the root and the shortened forest.
unfoldable pub find : ℕ → List ℕ → ℕ → ℕ × List ℕ
find zero p i = (i, p)
find (suc fuel) p i = elim (parent_of p i == i) [
  | true ↦ (i, p)
  | false ↦ let p' = set p i (parent_of p (parent_of p i)) in find fuel p' (parent_of p' i)
]

-- `parent[find(i)] = find(j)`, whose right side runs first.
unfoldable pub union : ℕ → List ℕ → ℕ → ℕ → List ℕ
unfolding find
union fuel p i j =
    let (root_j, p₁) = find fuel p j in let (root_i, p₂) = find fuel p₁ i in set p₂ root_i root_j
