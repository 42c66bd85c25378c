-- ===== src/Runs/Tables.antt =====
-- The tables `pipeline_run` and `stage_run`, their writers and readers in
-- src/repoauditor/store/db.py. Rows stand in the order of their ids, which the store counts up;
-- `now` is what datetime('now') gives, a summary is its JSON text.
use repoauditor.Prelude.{
  ℕ, suc, Bool, true, false, not, String, Option, none, some, List, [], ◌∷◌, ◌++◌, map, ◌==◌,
  str_eq, option_eq, ◌&&◌, if◌then◌else◌, filter_by,
}
use repoauditor.Prelude.Rows.{first_where, last_of}

pub data RunStatus : Type 0 where
  running completed failed : RunStatus

abbrev pub run_status_eq : RunStatus → RunStatus → Bool
run_status_eq running running = true
run_status_eq completed completed = true
run_status_eq failed failed = true
run_status_eq _ _ = false

pub record PipelineRun : Type 0 where
  pub id : ℕ
  pub parent_run_id : Option ℕ
  pub source : String
  pub repo_id : Option String
  pub commit_hash : Option String
  pub status : RunStatus
  pub started_at : String
  pub completed_at : Option String
  pub failed_stage : Option String
  pub failure_detail : Option String
  pub artifacts : List String

pub record StageRun : Type 0 where
  pub id : ℕ
  pub pipeline_run_id : ℕ
  pub stage : String
  pub status : RunStatus
  pub started_at : String
  pub completed_at : Option String
  pub summary : String
  pub artifacts : List String
  pub failure_detail : Option String

pub record RunStore : Type 0 where
  pub runs : List PipelineRun
  pub next_run : ℕ
  pub stages : List StageRun
  pub next_stage : ℕ

abbrev pub empty_store : RunStore
empty_store = record { runs = []; next_run = 1; stages = []; next_stage = 1 }

-- `WHERE id = ?`.
unfoldable pub get_pipeline_run : ℕ → List PipelineRun → Option PipelineRun
get_pipeline_run run_id = first_where (λ r. r.id == run_id)

abbrev pub new_run : ℕ → String → Option ℕ → String → PipelineRun
new_run i source parent now = record {
  id = i;
  parent_run_id = parent;
  source = source;
  repo_id = none;
  commit_hash = none;
  status = running;
  started_at = now;
  completed_at = none;
  failed_stage = none;
  failure_detail = none;
  artifacts = [];
}

-- The foreign key on `parent_run_id`: the insertion of a run whose parent is no row fails.
abbrev pub admits_parent : Option ℕ → List PipelineRun → Bool
admits_parent none rs = true
admits_parent (some p) rs = elim (get_pipeline_run p rs) [ none ↦ false | some _ ↦ true ]

unfoldable pub start_pipeline_run :
    String → Option ℕ → (now : String) → RunStore → Option (PipelineRun × RunStore)
start_pipeline_run source parent now s =
    let row = new_run s.next_run source parent now in
    if admits_parent parent s.runs
    then some (row, record s { runs = s.runs ++ row ∷ []; next_run = suc s.next_run })
    else none

-- `UPDATE pipeline_run SET ... WHERE id = ?`.
abbrev pub update_run : ℕ → (PipelineRun → PipelineRun) → List PipelineRun → List PipelineRun
update_run run_id f = map (λ r. if r.id == run_id then f r else r)

unfoldable pub update_pipeline_run_identity : ℕ → String → String → RunStore → RunStore
update_pipeline_run_identity run_id repo_id commit_hash s = record s {
  runs =
      update_run run_id (λ r. record r { repo_id = some repo_id; commit_hash = some commit_hash })
        s.runs;
}

-- How a run or a stage ended.
pub record Ending : Type 0 where
  pub status : RunStatus
  pub completed_at : String
  pub failed_stage : Option String
  pub failure_detail : Option String
  pub summary : Option String
  pub artifacts : Option (List String)

abbrev pub artifacts_or_empty : Option (List String) → List String
artifacts_or_empty none = []
artifacts_or_empty (some a) = a

abbrev pub summary_or_empty : Option String → String
summary_or_empty none = "{}"
summary_or_empty (some t) = t

unfoldable pub finish_pipeline_run : ℕ → Ending → RunStore → RunStore
finish_pipeline_run run_id e s = record s {
  runs =
      update_run run_id
        (λ r. record r {
          status = e.status;
          completed_at = some e.completed_at;
          failed_stage = e.failed_stage;
          failure_detail = e.failure_detail;
          artifacts = artifacts_or_empty e.artifacts;
        })
        s.runs;
}

unfoldable pub resume_pipeline_run : ℕ → RunStore → RunStore
resume_pipeline_run run_id s = record s {
  runs =
      update_run run_id
        (λ r. record r {
          status = running;
          completed_at = none;
          failed_stage = none;
          failure_detail = none;
        })
        s.runs;
}

-- The row of a stage within a run, on which `stage_run` has a uniqueness constraint.
abbrev pub is_stage : ℕ → String → StageRun → Bool
is_stage run_id stage r = (r.pipeline_run_id == run_id) && str_eq r.stage stage

unfoldable pub get_stage_run : ℕ → String → List StageRun → Option StageRun
get_stage_run run_id stage = first_where (is_stage run_id stage)

abbrev pub new_stage : ℕ → ℕ → String → String → StageRun
new_stage i run_id stage now = record {
  id = i;
  pipeline_run_id = run_id;
  stage = stage;
  status = running;
  started_at = now;
  completed_at = none;
  summary = "{}";
  artifacts = [];
  failure_detail = none;
}

abbrev pub restarted : String → StageRun → StageRun
restarted now r = record r {
  status = running;
  started_at = now;
  completed_at = none;
  summary = "{}";
  artifacts = [];
  failure_detail = none;
}

abbrev pub update_stage : ℕ → String → (StageRun → StageRun) → List StageRun → List StageRun
update_stage run_id stage f = map (λ r. if is_stage run_id stage r then f r else r)

-- `INSERT ... ON CONFLICT (pipeline_run_id, stage) DO UPDATE`, under the foreign key on the run.
unfoldable pub start_stage_run : ℕ → String → (now : String) → RunStore → Option RunStore
unfolding get_pipeline_run get_stage_run
start_stage_run run_id stage now s = elim (get_pipeline_run run_id s.runs) [
  | none ↦ none
  | some _ ↦ elim (get_stage_run run_id stage s.stages) [
    | some _ ↦ some (record s { stages = update_stage run_id stage (restarted now) s.stages })
    | none ↦ some (record s {
      stages = s.stages ++ new_stage s.next_stage run_id stage now ∷ [];
      next_stage = suc s.next_stage;
    })
  ]
]

abbrev pub ended_stage : Ending → StageRun → StageRun
ended_stage e r = record r {
  status = e.status;
  completed_at = some e.completed_at;
  summary = summary_or_empty e.summary;
  artifacts = artifacts_or_empty e.artifacts;
  failure_detail = e.failure_detail;
}

unfoldable pub finish_stage_run : ℕ → String → Ending → RunStore → RunStore
finish_stage_run run_id stage e s = record s {
  stages = update_stage run_id stage (ended_stage e) s.stages;
}

unfoldable pub list_stage_runs : ℕ → List StageRun → List StageRun
list_stage_runs run_id = filter_by (λ r. r.pipeline_run_id == run_id)

-- `ORDER BY id DESC LIMIT 1`: the last row that passes the test.
unfoldable pub get_latest_pipeline_run :
    String → Option String → List PipelineRun → Option PipelineRun
get_latest_pipeline_run repo_id none rs =
    last_of (filter_by (λ r. option_eq str_eq r.repo_id (some repo_id)) rs)
get_latest_pipeline_run repo_id (some commit) rs = last_of (
    filter_by
      (λ r.
        option_eq str_eq r.repo_id (some repo_id) && option_eq str_eq r.commit_hash (some commit))
      rs)

unfoldable pub find_resumable_pipeline_run : String → List PipelineRun → Option PipelineRun
find_resumable_pipeline_run source rs =
    last_of (filter_by (λ r. str_eq r.source source && not (run_status_eq r.status completed)) rs)
