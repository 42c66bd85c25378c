-- ===== src/Detect/Regions.antt =====
-- The table `detection_region_run` and `upsert_detected_finding` of src/repoauditor/store/db.py.
-- `now` is what datetime('now') gives.
use repoauditor.Prelude.{
  ℕ, suc, Bool, true, false, String, Option, none, some, List, [], ◌∷◌, ◌++◌, ◌==◌, str_eq,
  option_eq, ◌&&◌, if◌then◌else◌, filter_by,
}
use repoauditor.Prelude.Rows.{first_where, update_where}
use repoauditor.Store.{Finding}
use repoauditor.Runs.Tables.{RunStatus, running, completed, run_status_eq}
use repoauditor.Detect.Planning.{SelectionBasis}

pub data Lens : Type 0 where
  owasp supply_chain agentic_surface : Lens

abbrev pub lens_eq : Lens → Lens → Bool
lens_eq owasp owasp = true
lens_eq supply_chain supply_chain = true
lens_eq agentic_surface agentic_surface = true
lens_eq _ _ = false

-- The columns of the uniqueness constraint.
pub record RegionKey : Type 0 where
  pub repo_id : String
  pub commit_hash : String
  pub file : String
  pub lens : Lens
  pub prompt_version : String

abbrev pub key_eq : RegionKey → RegionKey → Bool
key_eq k q =
    str_eq k.repo_id q.repo_id
    && (str_eq k.commit_hash q.commit_hash
        && (str_eq k.file q.file
            && (lens_eq k.lens q.lens && str_eq k.prompt_version q.prompt_version)))

pub record DetectionRegionRun : Type 0 where
  pub id : ℕ
  pub key : RegionKey
  pub selection_basis : SelectionBasis
  pub status : RunStatus
  pub finding_count : ℕ
  pub started_at : String
  pub completed_at : Option String
  pub failure_detail : Option String

pub record RegionTable : Type 0 where
  pub rows : List DetectionRegionRun
  pub next_row : ℕ

unfoldable pub get_region : RegionKey → List DetectionRegionRun → Option DetectionRegionRun
get_region k = first_where (λ r. key_eq k r.key)

abbrev pub new_region : ℕ → RegionKey → SelectionBasis → String → DetectionRegionRun
new_region i k basis now = record {
  id = i;
  key = k;
  selection_basis = basis;
  status = running;
  finding_count = 0;
  started_at = now;
  completed_at = none;
  failure_detail = none;
}

-- `ON CONFLICT DO UPDATE`: a completed row keeps everything but its basis.
abbrev pub region_restarted : SelectionBasis → String → DetectionRegionRun → DetectionRegionRun
region_restarted basis now r =
    if run_status_eq r.status completed then record r { selection_basis = basis } else record r {
      selection_basis = basis;
      status = running;
      started_at = now;
      completed_at = none;
      failure_detail = none;
    }

-- The row that the insertion makes or updates, and the table.
unfoldable pub start_detection_region :
    RegionKey → SelectionBasis → (now : String) → RegionTable → DetectionRegionRun × RegionTable
unfolding get_region
start_detection_region k basis now t = elim (get_region k t.rows) [
  | some r ↦ (
    region_restarted basis now r,
    record t { rows = update_where (λ q. key_eq k q.key) (region_restarted basis now) t.rows },
  )
  | none ↦
      let row = new_region t.next_row k basis now in
      (row, record { rows = t.rows ++ row ∷ []; next_row = suc t.next_row })
]

abbrev pub region_ended :
    RunStatus → ℕ → Option String → String → DetectionRegionRun → DetectionRegionRun
region_ended status finding_count failure_detail now r = record r {
  status = status;
  finding_count = finding_count;
  completed_at = some now;
  failure_detail = failure_detail;
}

unfoldable pub finish_detection_region :
    ℕ → RunStatus → (finding_count : ℕ) → Option String → (now : String) → RegionTable → RegionTable
finish_detection_region region_id status finding_count failure_detail now t = record t {
  rows =
      update_where (λ r. r.id == region_id) (region_ended status finding_count failure_detail now)
        t.rows;
}

unfoldable pub list_detection_regions :
    String → String → List DetectionRegionRun → List DetectionRegionRun
list_detection_regions repo_id commit =
    filter_by (λ r. str_eq r.key.repo_id repo_id && str_eq r.key.commit_hash commit)

-- The natural identity of a finding: `=` on columns that are never null, `IS` on the others.
unfoldable pub is_same_finding : Finding → Finding → Bool
is_same_finding f row =
    str_eq row.repo_id f.repo_id
    && (option_eq str_eq row.source_lens f.source_lens
        && (option_eq str_eq row.source_tool f.source_tool
            && (str_eq row.file f.file
                && ((row.line_start == f.line_start)
                    && ((row.line_end == f.line_end)
                        && (str_eq row.title f.title
                            && (str_eq row.citation_snippet f.citation_snippet
                                && option_eq str_eq row.identity_key f.identity_key)))))))

pub record FindingTable : Type 0 where
  pub rows : List Finding
  pub next_row : ℕ

-- The row that is there is left as it is, verdict and severity included.
unfoldable pub upsert_detected_finding : Finding → FindingTable → Option ℕ × FindingTable
unfolding is_same_finding
upsert_detected_finding f t = elim (first_where (is_same_finding f) t.rows) [
  | some row ↦ (row.id, t)
  | none ↦
      let i = some t.next_row in
      (
        i,
        record {
          rows = t.rows ++ record f { id = i; corroborated_by = [] } ∷ [];
          next_row = suc t.next_row;
        },
      )
]
