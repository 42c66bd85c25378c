-- ===== src/Detect/Planning.antt =====
-- src/repoauditor/detect/planning.py. Files are known by their paths, which the source names by
-- their relative texts. The architecture map and the functions in the retrieval index are as far as
-- the plan reads them.
use repoauditor.Prelude.{
  ℕ, ◌+◌, ◌-◌, ◌*◌, Bool, true, false, not, String, Option, none, some, List, [], ◌∷◌, ◌++◌, map,
  ◌==◌, ltb, ◌&&◌, ◌||◌, str_eq, if◌then◌else◌, elem, length, min, flatten,
}
use repoauditor.Prelude.Rows.{first_where}
use repoauditor.Matching.Cwe.{codes, text_eq}
use repoauditor.Sources.Selection.{SourcePath, path_eq, iter_source_files}

pub record DetectConfig : Type 0 where
  pub max_llm_regions_per_run : ℕ
  pub reserved_sample_regions : ℕ
  pub reserved_architecture_neighbor_regions : ℕ

pub record DetectionProjection : Type 0 where
  pub source_files : ℕ
  pub lenses : ℕ
  pub unbounded_base_calls : ℕ
  pub planned_regions : ℕ
  pub planned_base_calls : ℕ
  pub omitted_regions : ℕ

-- The text before the colon of a basis, and which tool, or which relation, is behind it.
pub data SelectionBasis : Type 0 where
  deterministic : String → SelectionBasis
  architecture_map call_name_match callee_definition stable_coverage_sample : SelectionBasis

pub record PlannedRegion : Type 0 where
  pub path : SourcePath
  pub selection_basis : SelectionBasis

-- Whether the projection is refused: `ceiling and minimum > ceiling`.
unfoldable pub validate_detection_projection : DetectionProjection → (ceiling reserve : ℕ) → Bool
validate_detection_projection p ceiling reserve =
    not (ceiling == 0) && ltb ceiling (reserve + p.planned_base_calls)

unfoldable pub project_detection_work : List SourcePath → DetectConfig → ℕ → DetectionProjection
project_detection_work listing config lens_count =
    let source_files = length (iter_source_files listing) in
    let planned = min source_files config.max_llm_regions_per_run in
    record {
      source_files = source_files;
      lenses = lens_count;
      unbounded_base_calls = source_files * lens_count;
      planned_regions = planned;
      planned_base_calls = planned * lens_count;
      omitted_regions = source_files - planned;
    }

-- `path.as_posix()` of a path below the root, as characters.
abbrev pub posix : SourcePath → List ℕ
posix p = flatten (map (λ d. codes d ++ b'/' ∷ []) p.parents) ++ (codes p.stem ++ codes p.suffix)

-- `replace("\\", "/")`, and `lstrip("./")`.
abbrev slashes : List ℕ → List ℕ
slashes = map (λ c. if c == 92 then b'/' else c)

abbrev lstrip : List ℕ → List ℕ
lstrip [] = []
lstrip (c ∷ cs) = let rest = lstrip cs in if c == b'.' || c == b'/' then rest else c ∷ cs

-- `split(":", 1)[0]`.
abbrev before_colon : List ℕ → List ℕ
before_colon [] = []
before_colon (c ∷ cs) = let rest = before_colon cs in if c == b':' then [] else c ∷ rest

abbrev normal : List ℕ → List ℕ
normal t = lstrip (slashes t)

-- `None` for no location; an empty text is no file of a tree.
abbrev pub location_file : Option String → Option (List ℕ)
location_file none = none
location_file (some location) = elim (normal (before_colon (codes location))) [
  | [] ↦ none
  | c ∷ cs ↦ some (c ∷ cs)
]

-- `by_rel`: the file of a relative text; no two files of a tree have one text.
unfoldable pub by_rel : List SourcePath → List ℕ → Option SourcePath
by_rel files rel = first_where (λ p. text_eq (posix p) rel) files

abbrev pub paths : List PlannedRegion → List SourcePath
paths = map (λ r. r.path)

-- A dictionary from files, in the order of insertion.
abbrev pub Indicated : Type 0
Indicated = List PlannedRegion

abbrev pub is_key : SourcePath → Indicated → Bool
is_key p d = elem path_eq p (paths d)

abbrev pub setdefault : PlannedRegion → Indicated → Indicated
setdefault r d = if is_key r.path d then d else d ++ r ∷ []

abbrev pub setdefault_found : Option SourcePath → SelectionBasis → Indicated → Indicated
setdefault_found none basis d = d
setdefault_found (some p) basis d = setdefault (record { path = p; selection_basis = basis }) d

pub record CandidateFinding : Type 0 where
  pub file : String
  pub source_tool : String
  pub producer : Option String

pub record Entity : Type 0 where
  pub location : Option String

pub record ArchitectureMap : Type 0 where
  pub entry_points : List Entity
  pub data_stores : List Entity
  pub integrations : List Entity

-- `candidate.producer or candidate.source_tool`.
abbrev producer_of : CandidateFinding → String
producer_of c = elim c.producer [
  | none ↦ c.source_tool
  | some p ↦ if str_eq p "" then c.source_tool else p
]

abbrev pub indicate_candidates : List SourcePath → List CandidateFinding → Indicated → Indicated
indicate_candidates files [] d = d
indicate_candidates files (c ∷ cs) d =
    indicate_candidates files cs
      (setdefault_found (by_rel files (normal (codes c.file))) (deterministic (producer_of c)) d)

-- `rel in by_rel` for the file of a location.
abbrev pub located : List SourcePath → Entity → Option SourcePath
located files e = elim (location_file e.location) [ none ↦ none | some rel ↦ by_rel files rel ]

abbrev pub indicate_entities : List SourcePath → List Entity → Indicated → Indicated
indicate_entities files [] d = d
indicate_entities files (e ∷ es) d =
    indicate_entities files es (setdefault_found (located files e) architecture_map d)

abbrev pub entities_of : ArchitectureMap → List Entity
entities_of a = a.entry_points ++ (a.data_stores ++ a.integrations)

-- The order of texts by their characters.
abbrev pub text_le : List ℕ → List ℕ → Bool
text_le [] t = true
text_le (a ∷ s) [] = false
text_le (a ∷ s) (b ∷ t) = ltb a b || ((a == b) && text_le s t)

abbrev priority : SelectionBasis → ℕ
priority (deterministic tool) = 0
priority architecture_map = 1
priority _ = 2

abbrev pub indicated_le : PlannedRegion → PlannedRegion → Bool
indicated_le r q =
    ltb (priority r.selection_basis) (priority q.selection_basis)
    || ((priority r.selection_basis == priority q.selection_basis)
        && text_le (posix r.path) (posix q.path))
