-- ===== src/Sources/Selection.antt =====
-- `select_diverse_source_files` of src/repoauditor/sourcefiles.py and what it calls. The sorted
-- listing of the tree and the digests that order paths and directories are parameters; the fraction
-- of tests is the default, a quarter, and lower case is that of ASCII.
use repoauditor.Prelude.{
  ℕ, zero, suc, ◌+◌, ◌-◌, ◌/◌, Bool, true, false, not, String, none, some, List, [], ◌∷◌, ◌++◌, map,
  ◌==◌, leb, ◌&&◌, ◌||◌, str_eq, if◌then◌else◌, get_elem?, filter_by, any, elem, length, take, drop,
  min,
}
use repoauditor.Prelude.Sort.{sorted}
use repoauditor.Matching.Cwe.{codes, text_eq}

-- A file below the root: its directories, stem and suffix.
pub record SourcePath : Type 0 where
  pub parents : List String
  pub stem : String
  pub suffix : String

abbrev source_extensions : List String
source_extensions =
    ".py" ∷ ".js" ∷ ".jsx" ∷ ".ts" ∷ ".tsx" ∷ ".go" ∷ ".rb" ∷ ".php" ∷ ".java" ∷ ".kt" ∷ ".kts"
    ∷ ".rs" ∷ ".c" ∷ ".h" ∷ ".cpp" ∷ ".cs" ∷ ".sh" ∷ []

abbrev skip_dirs : List String
skip_dirs = ".git" ∷ "node_modules" ∷ "__pycache__" ∷ ".venv" ∷ "venv" ∷ "dist" ∷ "build" ∷ []

abbrev test_dirs : List String
test_dirs = "test" ∷ "tests" ∷ "spec" ∷ "specs" ∷ "__tests__" ∷ []

-- The parts of a path are its directories and its name, which is no skipped one with a suffix.
unfoldable pub iter_source_files : List SourcePath → List SourcePath
iter_source_files = filter_by (λ p.
    elem str_eq p.suffix source_extensions && not (any (λ d. elem str_eq d skip_dirs) p.parents))

abbrev lower : ℕ → ℕ
lower c = if leb 65 c && leb c 90 then c + 32 else c

abbrev lowered : String → List ℕ
lowered s = map lower (codes s)

abbrev starts_with : List ℕ → List ℕ → Bool
starts_with [] s = true
starts_with (p ∷ ps) [] = false
starts_with (p ∷ ps) (c ∷ s) = p == c && starts_with ps s

abbrev ends_with : List ℕ → List ℕ → Bool
ends_with p [] = text_eq p []
ends_with p (c ∷ s) = text_eq p (c ∷ s) || ends_with p s

unfoldable pub is_test_source : SourcePath → Bool
is_test_source p =
    let stem = lowered p.stem in
    any (λ d. any (λ t. text_eq (lowered d) (codes t)) test_dirs) p.parents
    || (starts_with (codes "test_") stem || starts_with (codes "spec_") stem)
    || (ends_with (codes "_test") stem || ends_with (codes "_spec") stem)

-- The first two directories, which the source joins; "." is the empty list.
abbrev pub directory_bucket : SourcePath → List String
directory_bucket p = take 2 p.parents

abbrev pub bucket_eq : List String → List String → Bool
bucket_eq [] [] = true
bucket_eq [] (t ∷ ts) = false
bucket_eq (s ∷ ss) [] = false
bucket_eq (s ∷ ss) (t ∷ ts) = str_eq s t && bucket_eq ss ts

pub record Digests : Type 0 where
  pub of_path : SourcePath → ℕ
  pub of_directory : List String → ℕ

abbrev pub Bucket : Type 0
Bucket = List String × List SourcePath

-- `buckets[bucket].append(path)`.
abbrev pub put_path : SourcePath → List Bucket → List Bucket
put_path p [] = (directory_bucket p, p ∷ []) ∷ []
put_path p ((name, ps) ∷ bs) =
    let rest = put_path p bs in
    if bucket_eq (directory_bucket p) name then (name, ps ++ p ∷ []) ∷ bs else (name, ps) ∷ rest

abbrev pub put_all : List SourcePath → List Bucket → List Bucket
put_all [] bs = bs
put_all (p ∷ ps) bs = put_all ps (put_path p bs)

-- The buckets in the order of their names' digests, each in the order of its paths'.
abbrev pub path_le : Digests → SourcePath → SourcePath → Bool
path_le h p q = leb (h.of_path p) (h.of_path q)

abbrev pub bucket_le : Digests → Bucket → Bucket → Bool
bucket_le h b c = leb (h.of_directory b.0) (h.of_directory c.0)

abbrev pub sort_each : Digests → List Bucket → List (List SourcePath)
sort_each h [] = []
sort_each h ((name, ps) ∷ bs) = sorted (path_le h) ps ∷ sort_each h bs

unfoldable pub ordered_buckets : Digests → List SourcePath → List (List SourcePath)
ordered_buckets h ps = sort_each h (sorted (bucket_le h) (put_all ps []))

-- One round of the loop: the path at `depth` of each bucket that has one.
abbrev pub column : ℕ → List (List SourcePath) → List SourcePath
column depth [] = []
column depth (b ∷ bs) = elim (get_elem? b depth) [
  | none ↦ column depth bs
  | some p ↦ p ∷ column depth bs
]

-- `while len(ordered) < len(paths)`, with the number of paths as fuel.
unfoldable pub deal :
    (fuel total depth : ℕ) → List (List SourcePath) → List SourcePath → List SourcePath
deal zero total depth bs ordered = ordered
deal (suc fuel) total depth bs ordered =
    let more = deal fuel total (suc depth) bs (ordered ++ column depth bs) in
    if leb total (length ordered) then ordered else more

unfoldable pub directory_diverse_order : Digests → List SourcePath → List SourcePath
unfolding ordered_buckets deal
directory_diverse_order h ps = deal (length ps) (length ps) 0 (ordered_buckets h ps) []

abbrev pub path_eq : SourcePath → SourcePath → Bool
path_eq p q = bucket_eq p.parents q.parents && (str_eq p.stem q.stem && str_eq p.suffix q.suffix)

abbrev pub test_slots : ℕ → List SourcePath → ℕ
test_slots limit tests = min (length tests) (limit / 4)

abbrev pub production_slots : ℕ → List SourcePath → List SourcePath → ℕ
production_slots limit production tests = min (length production) (limit - test_slots limit tests)

-- The paths of a list that are not selected.
abbrev pub unselected : List SourcePath → List SourcePath → List SourcePath
unselected selected = filter_by (λ p. not (elem path_eq p selected))

-- The selection for lists of production and test paths in their orders.
unfoldable pub bounded_selection : ℕ → List SourcePath → List SourcePath → List SourcePath
bounded_selection limit production tests =
    let t = test_slots limit tests in
    let p = production_slots limit production tests in
    let selected = take p production ++ take t tests in
    selected
    ++ take (limit - length selected) (unselected selected (drop p production ++ drop t tests))

unfoldable pub select_diverse_source_files : Digests → List SourcePath → ℕ → List SourcePath
unfolding iter_source_files is_test_source directory_diverse_order bounded_selection
select_diverse_source_files h listing limit =
    let files = iter_source_files listing in
    bounded_selection (min limit (length files))
      (directory_diverse_order h (filter_by (λ p. not (is_test_source p)) files))
      (directory_diverse_order h (filter_by is_test_source files))
