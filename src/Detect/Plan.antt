-- ===== src/Detect/Plan.antt =====
-- `_architecture_neighbors` and `plan_detection_regions` of src/repoauditor/detect/planning.py.
use repoauditor.Prelude.{
  ℕ, ◌-◌, Bool, not, String, Option, none, some, List, [], ◌∷◌, ◌++◌, map, ◌==◌, leb, ltb, ◌&&◌,
  ◌||◌, str_eq, if◌then◌else◌, elem, distinct, length, take, drop, min,
}
use repoauditor.Prelude.Sort.{sorted}
use repoauditor.Matching.Cwe.{codes}
use repoauditor.Sources.Selection.{
  SourcePath, Digests, path_eq, unselected, iter_source_files, select_diverse_source_files,
}
use repoauditor.Detect.Planning.{
  DetectConfig, PlannedRegion, SelectionBasis, call_name_match, callee_definition,
  stable_coverage_sample, posix, text_le, by_rel, paths, Indicated, setdefault, CandidateFinding,
  ArchitectureMap, indicate_candidates, indicate_entities, entities_of, indicated_le, located,
}

-- A function that the index knows, by its file and its first line.
pub record FunctionSite : Type 0 where
  pub file : String
  pub line_start : ℕ

pub record RetrievalIndex : Type 0 where
  pub functions_in_file : SourcePath → List String
  pub find_callers_matching : List String → List FunctionSite
  pub find_callees : String → List FunctionSite

-- The tuple (relation, seed, file, line, basis); the basis follows the relation.
pub record NeighborCandidate : Type 0 where
  pub relation : ℕ
  pub seed : SourcePath
  pub file : SourcePath
  pub line_start : ℕ

abbrev basis_of : ℕ → SelectionBasis
basis_of relation = if relation == 0 then call_name_match else callee_definition

-- The order of tuples: the first component that differs decides.
abbrev pub neighbor_le : NeighborCandidate → NeighborCandidate → Bool
neighbor_le a b =
    ltb a.relation b.relation
    || ((a.relation == b.relation)
        && (not (text_le (posix b.seed) (posix a.seed))
            || (path_eq a.seed b.seed
                && (not (text_le (posix b.file) (posix a.file))
                    || (path_eq a.file b.file && leb a.line_start b.line_start)))))

-- A site in another file of the tree is a candidate.
abbrev pub candidates_at :
    List SourcePath → ℕ → SourcePath → List FunctionSite → List NeighborCandidate
candidates_at files relation seed [] = []
candidates_at files relation seed (s ∷ ss) =
    let rest = candidates_at files relation seed ss in
    elim (by_rel files (codes s.file)) [
      | none ↦ rest
      | some p ↦
          if path_eq p seed
          then rest
          else record { relation = relation; seed = seed; file = p; line_start = s.line_start }
            ∷ rest
    ]

abbrev pub callee_candidates :
    List SourcePath → RetrievalIndex → SourcePath → List String → List NeighborCandidate
callee_candidates files index seed [] = []
callee_candidates files index seed (symbol ∷ symbols) =
    candidates_at files 1 seed (index.find_callees symbol)
    ++ callee_candidates files index seed symbols

abbrev pub symbols_of : RetrievalIndex → SourcePath → List String
symbols_of index seed =
    sorted (λ s t. text_le (codes s) (codes t)) (distinct str_eq (index.functions_in_file seed))

abbrev pub seed_candidates :
    List SourcePath → RetrievalIndex → List SourcePath → List NeighborCandidate
seed_candidates files index [] = []
seed_candidates files index (seed ∷ seeds) =
    let symbols = symbols_of index seed in
    candidates_at files 0 seed (index.find_callers_matching symbols)
    ++ (callee_candidates files index seed symbols ++ seed_candidates files index seeds)

abbrev pub all_located : List SourcePath → ArchitectureMap → List SourcePath
all_located files a = found (map (located files) (entities_of a))
  where
    found : List (Option SourcePath) → List SourcePath
    found [] = []
    found (none ∷ os) = found os
    found (some p ∷ os) = p ∷ found os

abbrev pub neighbors_of : List NeighborCandidate → Indicated → Indicated
neighbors_of [] d = d
neighbors_of (c ∷ cs) d =
    neighbors_of cs (setdefault (record { path = c.file; selection_basis = basis_of c.relation }) d)

unfoldable pub architecture_neighbors :
    ArchitectureMap → List SourcePath → Option RetrievalIndex → Indicated
architecture_neighbors a files none = []
architecture_neighbors a files (some index) =
    let seeds =
      sorted (λ p q. text_le (posix p) (posix q)) (distinct path_eq (all_located files a)) in
    neighbors_of (sorted neighbor_le (seed_candidates files index seeds)) []

-- `rel in selected_names`: every selected region's name is in the set.
abbrev pub is_selected : SourcePath → List PlannedRegion → Bool
is_selected p selected = elem path_eq p (paths selected)

-- The loop over the neighbors, with the slots that are free.
abbrev pub add_neighbors : ℕ → Indicated → List PlannedRegion → List PlannedRegion
add_neighbors slots [] selected = selected
add_neighbors slots (r ∷ rs) selected =
    let skipped = add_neighbors slots rs selected in
    let added = add_neighbors (slots - 1) rs (selected ++ r ∷ []) in
    if slots == 0 then selected else if is_selected r.path selected then skipped else added

-- The loop over the indicated files that got no slot.
abbrev pub add_indicated : ℕ → Indicated → List PlannedRegion → List PlannedRegion
add_indicated evidence_slots [] selected = selected
add_indicated evidence_slots (r ∷ rs) selected =
    let skipped = add_indicated evidence_slots rs selected in
    let added = add_indicated evidence_slots rs (selected ++ r ∷ []) in
    if leb evidence_slots (length selected)
    then selected
    else if is_selected r.path selected
    then skipped
    else added

-- The loop over the files that nothing points at.
abbrev pub add_samples : ℕ → List SourcePath → List PlannedRegion → List PlannedRegion
add_samples cap [] selected = selected
add_samples cap (p ∷ ps) selected =
    let added =
      add_samples cap ps
        (selected ++ record { path = p; selection_basis = stable_coverage_sample } ∷ []) in
    if leb cap (length selected) then selected else added

abbrev pub not_selected : List PlannedRegion → List SourcePath → List SourcePath
not_selected selected = unselected (paths selected)

-- The evidence's part of the selection, for files with evidence and neighbors in their orders.
unfoldable pub select_evidence :
    (evidence_slots neighbor_slots : ℕ) → Indicated → Indicated → List PlannedRegion
select_evidence evidence_slots neighbor_slots ordered neighbors =
    let indicated_slots = evidence_slots - neighbor_slots in
    add_indicated evidence_slots (drop indicated_slots ordered)
      (add_neighbors neighbor_slots neighbors (take indicated_slots ordered))

abbrev pub evidence_of : List SourcePath → ArchitectureMap → List CandidateFinding → Indicated
evidence_of files a cs =
    sorted indicated_le (indicate_entities files (entities_of a) (indicate_candidates files cs []))

unfoldable pub plan_detection_regions :
    Digests
    → (listing : List SourcePath) → DetectConfig
    → ArchitectureMap
    → List CandidateFinding
    → Option RetrievalIndex
    → List PlannedRegion
unfolding architecture_neighbors select_evidence
plan_detection_regions h listing config a cs index =
    let files = iter_source_files listing in
    let cap = config.max_llm_regions_per_run in
    let neighbors = architecture_neighbors a files index in
    let evidence_slots = cap - min config.reserved_sample_regions cap in
    let neighbor_slots =
      min (min config.reserved_architecture_neighbor_regions evidence_slots) (length neighbors) in
    let selected =
      select_evidence evidence_slots neighbor_slots (evidence_of files a cs) neighbors in
    let remaining = not_selected selected (select_diverse_source_files h listing (length files)) in
    if (cap == 0) || (length files == 0) then [] else add_samples cap remaining selected
