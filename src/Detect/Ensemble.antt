-- ===== src/Detect/Ensemble.antt =====
-- The loop of `run_ensemble` over regions and lenses in src/repoauditor/detect/ensemble.py, after the
-- scanners and the plan. The answers of the model, the texts of prompts and descriptions and the
-- clock are parameters.
use repoauditor.Prelude.{
  ℕ, suc, Bool, true, false, String, Option, none, some, List, [], ◌∷◌, ◌++◌, map, str_eq, ◌&&◌,
  is_some, if◌then◌else◌, flatten,
}
use repoauditor.Prelude.Ints.{pos, int_leb, int_ltb, int_max, int_min}
use repoauditor.Prelude.Rows.{first_where}
use repoauditor.Store.{FindingFields, unresolved, one, new_finding}
use repoauditor.Runs.Tables.{completed, failed, run_status_eq}
use repoauditor.Detect.Planning.{SelectionBasis}
use repoauditor.Detect.Citation.{
  FileText, LensCandidate, CitationError, anchored, rejected, canonicalize_citation,
}
use repoauditor.Detect.Regions.{
  Lens, owasp, supply_chain, agentic_surface, RegionKey, RegionTable, FindingTable,
  start_detection_region, finish_detection_region, upsert_detected_finding,
}

pub record TrustBoundary : Type 0 where
  pub id : Option ℕ
  pub name : String

-- What a call of the model gives; a refusal before the call raises too.
pub data LensReply : Type 0 where
  raised : String → LensReply
  findings : List LensCandidate → LensReply

pub record World : Type 0 where
  pub repo_id : String
  pub commit_hash : String
  pub texts : List FileText
  pub reply : ℕ → LensReply
  pub trust_boundaries : List TrustBoundary
  pub confidence_threshold : ℕ
  pub prompt_version : Lens → String
  pub description : LensCandidate → Bool → Option String
  pub failure_detail : String
  pub now : String

-- The tables, the logged failures, and how many calls of the model were tried.
pub record DetectState : Type 0 where
  pub regions : RegionTable
  pub findings : FindingTable
  pub failures : List CitationError
  pub calls : ℕ

abbrev boundary_where : (TrustBoundary → Bool) → List TrustBoundary → Option ℕ
boundary_where p tbs = elim (first_where (λ b. p b && is_some b.id) tbs) [
  | none ↦ none
  | some b ↦ b.id
]

unfoldable pub trust_boundary_id : List TrustBoundary → Option String → Option ℕ
trust_boundary_id tbs none = boundary_where (λ b. true) tbs
trust_boundary_id tbs (some name) = elim (boundary_where (λ b. str_eq b.name name) tbs) [
  | some i ↦ some i
  | none ↦ boundary_where (λ b. true) tbs
]

abbrev pub lens_name : Lens → String
lens_name owasp = "owasp"
lens_name supply_chain = "supply_chain"
lens_name agentic_surface = "agentic_surface"

unfoldable pub finding_of : World → Lens → LensCandidate → Bool → FindingFields
unfolding trust_boundary_id
finding_of w lens c low = record {
  repo_id = w.repo_id;
  title = c.title;
  file = c.file;
  line_start = c.line_start;
  line_end = int_max c.line_end c.line_start;
  citation_snippet = c.citation_snippet;
  identity_key = none;
  source_lens = some (lens_name lens);
  source_tool = none;
  confidence = int_min (int_max c.confidence (pos 0)) (pos one);
  severity = c.severity;
  falsification_status = unresolved;
  trust_boundary_id = trust_boundary_id w.trust_boundaries c.trust_boundary_ref;
  description = w.description c low;
}

-- The finding is stored; none if its constructor raises.
unfoldable pub persist_candidate :
    World → Lens → LensCandidate → Bool → DetectState → Option DetectState
unfolding finding_of new_finding upsert_detected_finding
persist_candidate w lens c low s = elim (new_finding (finding_of w lens c low)) [
  | none ↦ none
  | some f ↦ some (record s { findings = (upsert_detected_finding f s.findings).1 })
]

-- `_canonicalize_citation` with the failure that it logs.
unfoldable pub canonicalized :
    World → LensCandidate → DetectState → Option LensCandidate × DetectState
unfolding canonicalize_citation
canonicalized w c s = elim (canonicalize_citation w.texts c) [
  | anchored d corrected ↦ (some d, s)
  | rejected e ↦ (none, record s { failures = s.failures ++ e ∷ [] })
]

abbrev same_citation : LensCandidate → List LensCandidate → Option LensCandidate
same_citation c = first_where (λ d. str_eq d.citation_snippet c.citation_snippet)

-- The candidate and whether its confidence stays low; none if the call raises.
unfoldable pub resolve_confidence :
    World → LensCandidate → DetectState → Option (LensCandidate × Bool) × DetectState
resolve_confidence w c s =
    if int_leb (pos w.confidence_threshold) c.confidence then (some (c, false), s) else (
      elim (w.reply s.calls) [
        | raised e ↦ none
        | findings cs ↦ elim (same_citation c cs) [
          | some d ↦ some (d, int_ltb d.confidence (pos w.confidence_threshold))
          | none ↦ some (c, true)
        ]
      ],
      record s { calls = suc s.calls },
    )

-- The loop over the candidates of an answer: how many are persisted, or none if something raises.
unfoldable pub handle_candidates :
    World → Lens → List LensCandidate → (finding_count : ℕ) → DetectState → Option ℕ × DetectState
unfolding canonicalized resolve_confidence persist_candidate
handle_candidates w lens [] n s = (some n, s)
handle_candidates w lens (c ∷ cs) n s =
    let (anchor, s1) = canonicalized w c s in
    elim anchor [
      | none ↦ handle_candidates w lens cs n s1
      | some c1 ↦
          let (resolved, s2) = resolve_confidence w c1 s1 in
          elim resolved [
            | none ↦ (none, s2)
            | some (c2, low) ↦
                let (again, s3) = canonicalized w c2 s2 in
                elim again [
                  | none ↦ handle_candidates w lens cs n s3
                  | some c3 ↦ elim (persist_candidate w lens c3 low s3) [
                    | none ↦ (none, s3)
                    | some s4 ↦ handle_candidates w lens cs (suc n) s4
                  ]
                ]
          ]
    ]

-- One lens over one planned region.
pub record Job : Type 0 where
  pub file : String
  pub selection_basis : SelectionBasis
  pub lens : Lens

abbrev pub key_of : World → Job → RegionKey
key_of w j = record {
  repo_id = w.repo_id;
  commit_hash = w.commit_hash;
  file = j.file;
  lens = j.lens;
  prompt_version = w.prompt_version j.lens;
}

pub data LensOutcome : Type 0 where
  examined skipped interrupted : LensOutcome

-- The call of the lens, and what is handled of its answer.
unfoldable pub call_lens : World → Job → DetectState → Option ℕ × DetectState
unfolding handle_candidates
call_lens w j s = elim (w.reply s.calls) [
  | raised e ↦ (none, record s { calls = suc s.calls })
  | findings cs ↦ handle_candidates w j.lens cs 0 (record s { calls = suc s.calls })
]

unfoldable pub examine : World → Job → DetectState → LensOutcome × DetectState
unfolding call_lens start_detection_region finish_detection_region
examine w j s =
    let (row, t) = start_detection_region (key_of w j) j.selection_basis w.now s.regions in
    let s1 = record s { regions = t } in
    let (count, s2) = call_lens w j s1 in
    if run_status_eq row.status completed then (skipped, s1) else elim count [
      | some n ↦ (
        examined,
        record s2 { regions = finish_detection_region row.id completed n none w.now s2.regions },
      )
      | none ↦ (
        interrupted,
        record s2 {
          regions =
              finish_detection_region row.id failed 0 (some w.failure_detail) w.now s2.regions;
        },
      )
    ]

pub record Tally : Type 0 where
  pub completed_region_calls : ℕ
  pub skipped_completed_region_calls : ℕ

-- The two loops: a run ends with its tally, or an exception leaves it.
pub data Run : Type 0 where
  ended : Tally → DetectState → Run
  stopped : DetectState → Run

unfoldable pub run_jobs : World → List Job → Tally → DetectState → Run
unfolding examine
run_jobs w [] y s = ended y s
run_jobs w (j ∷ js) y s =
    let (outcome, t) = examine w j s in
    elim outcome [
      | examined ↦
          run_jobs w js (record y { completed_region_calls = suc y.completed_region_calls }) t
      | skipped ↦
          run_jobs w js
            (record y { skipped_completed_region_calls = suc y.skipped_completed_region_calls }) t
      | interrupted ↦ stopped t
    ]

-- `for planned_region in planned: for lens in _LENS_PROMPTS`.
abbrev pub jobs_of : List (String × SelectionBasis) → List Job
jobs_of planned = flatten (
    map
      (λ p.
        map (λ l. record { file = p.0; selection_basis = p.1; lens = l })
          (owasp ∷ supply_chain ∷ agentic_surface ∷ []))
      planned)

unfoldable pub run_ensemble : World → List (String × SelectionBasis) → DetectState → Run
unfolding run_jobs
run_ensemble w planned s =
    run_jobs w (jobs_of planned)
      (record { completed_region_calls = 0; skipped_completed_region_calls = 0 }) s
