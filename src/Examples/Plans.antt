-- ===== src/Examples/Plans.antt =====
-- A plan for the tree of four files, and citations in two texts.
use repoauditor.Prelude.{
  ℕ, ◌+◌, ◌*◌, ◌≤◌, ◌≡◌, ◌↔◌, ◌⊎◌, refl, true, false, none, some, List, [], ◌∷◌, length,
}
use repoauditor.Prelude.Ints.{pos}
use repoauditor.Store.{high}
use repoauditor.Matching.Cwe.{codes}
use repoauditor.Sources.Selection.{iter_source_files}
use repoauditor.Sources.Distinct.{is_distinct}
use repoauditor.Examples.Files.{listing, digests, all_distinct}
use repoauditor.Detect.Counted.{leaves}
use repoauditor.Detect.Planning.{
  DetectConfig, CandidateFinding, ArchitectureMap, paths, project_detection_work,
  validate_detection_projection,
}
use repoauditor.Detect.Plan.{RetrievalIndex, plan_detection_regions}
use repoauditor.Detect.Planned.{
  plan_detection_regions-project_detection_work, validate_detection_projection_lem,
}
use repoauditor.Detect.Citation.{
  LensCandidate, FileText, anchored, rejected, ambiguous, canonicalize_citation, locate_citation,
  same_file,
}
use repoauditor.Detect.Stable.{IsSpread, canonicalize_citation_stable}

abbrev config : DetectConfig
config = record {
  max_llm_regions_per_run = 3;
  reserved_sample_regions = 1;
  reserved_architecture_neighbor_regions = 1;
}

abbrev architecture : ArchitectureMap
architecture = record {
  entry_points = record { location = some "main.py:3" } ∷ [];
  data_stores = record { location = some "./src/db/schema.py" } ∷ [];
  integrations = record { location = none } ∷ [];
}

abbrev tool_candidates : List CandidateFinding
tool_candidates =
    record { file = "src\\db\\query.py"; source_tool = "semgrep"; producer = none } ∷ []

abbrev index : RetrievalIndex
index = record {
  functions_in_file = λ p. "run" ∷ [];
  find_callers_matching = λ symbols. record { file = "tests/test_query.py"; line_start = 4 } ∷ [];
  find_callees = λ symbol. [];
}

plan_detection_regions-project_detection_work_example :
    (length
        (plan_detection_regions digests listing config architecture tool_candidates (some index))
      ≡ (project_detection_work listing config 3).planned_regions)
    × (is_distinct (
          paths (
            plan_detection_regions digests listing config architecture tool_candidates
              (some index)))
        ≡ true)
    × (leaves (iter_source_files listing) (
          paths (
            plan_detection_regions digests listing config architecture tool_candidates
              (some index)))
        ≡ false)
plan_detection_regions-project_detection_work_example =
    plan_detection_regions-project_detection_work digests listing config architecture
      tool_candidates (some index) 3 all_distinct

abbrev ceiling : ℕ
ceiling = 10

validate_detection_projection_lem_example :
    (validate_detection_projection (project_detection_work listing config 3) ceiling 2 ≡ false) ↔ (
      (ceiling ≡ 0)
      ⊎ (2
            + length (
                plan_detection_regions digests listing config architecture tool_candidates
                  (some index))
              * 3
          ≤ ceiling))
validate_detection_projection_lem_example =
    validate_detection_projection_lem digests listing config architecture tool_candidates
      (some index) 3 ceiling 2 all_distinct

abbrev pub texts : List FileText
texts =
    record { file = "a.py"; text = codes "x = 1\ncall(x)\n" }
    ∷ record { file = "b.py"; text = codes "}\n{}\n{}" }
    ∷ []

abbrev pub candidate : LensCandidate
candidate = record {
  title = "Unchecked call";
  file = "src/a.py";
  line_start = pos 1;
  line_end = pos 1;
  citation_snippet = " call(x) ";
  severity = high;
  confidence = pos 700000;
  trust_boundary_ref = none;
  rationale = none;
}

abbrev at_line : LensCandidate
at_line = record candidate { file = "a.py"; line_start = pos 2; line_end = pos 2 }

anchored_at_line : canonicalize_citation texts candidate ≡ anchored at_line true
unfolding canonicalize_citation same_file
anchored_at_line = refl

one_place : IsSpread (locate_citation texts candidate.citation_snippet)
unfolding locate_citation
one_place = (tt, tt)

canonicalize_citation_stable_example : canonicalize_citation texts at_line ≡ anchored at_line false
canonicalize_citation_stable_example =
    canonicalize_citation_stable texts candidate at_line true anchored_at_line one_place

-- Two places that share a line: the first call anchors, a second one rejects.
abbrev brackets : LensCandidate
brackets = record candidate { file = "b.py"; citation_snippet = "}\n{" }

abbrev first_place : LensCandidate
first_place = record brackets { line_start = pos 1; line_end = pos 2 }

anchored_once : canonicalize_citation texts brackets ≡ anchored first_place true
unfolding canonicalize_citation same_file
anchored_once = refl

rejected_then : canonicalize_citation texts first_place ≡ rejected (ambiguous 2)
unfolding canonicalize_citation same_file
rejected_then = refl

-- Two places in files whose names match as paths: the first call anchors, a second one rejects.
abbrev nested_texts : List FileText
nested_texts =
    record { file = "a.py"; text = codes "call(x)" }
    ∷ record { file = "lib/a.py"; text = codes "call(x)" }
    ∷ []

abbrev elsewhere_named : LensCandidate
elsewhere_named = record candidate { file = "other/a.py" }

abbrev at_top : LensCandidate
at_top = record candidate { file = "a.py" }

nested_anchored : canonicalize_citation nested_texts elsewhere_named ≡ anchored at_top false
unfolding canonicalize_citation same_file
nested_anchored = refl

nested_rejected : canonicalize_citation nested_texts at_top ≡ rejected (ambiguous 2)
unfolding canonicalize_citation same_file
nested_rejected = refl
