-- ===== src/Review/Tables.antt =====
-- The tables `review_request` and `review_decision` and their readers and writers in
-- src/repoauditor/store/db.py. Rows stand in the order of their ids, which the store counts up.
use repoauditor.Prelude.{
  ℕ, suc, String, Option, none, some, List, [], ◌∷◌, ◌++◌, ◌==◌, str_eq, if◌then◌else◌, filter_by,
}
pub use repoauditor.Prelude.Rows.{first_where, last_of}
use repoauditor.Store.{Severity}

pub data ReviewDisposition : Type 0 where
  confirm dismiss : ReviewDisposition

pub data Stage : Type 0 where
  falsify normalize triage triage_sample : Stage

-- The stage's own part of the evidence, as far as the program reads it again or a reviewer does.
pub data Trace : Type 0 where
  no_trace : Trace
  falsification_trace : (iterations : ℕ) → Trace
  debate : (synthesis_rationale : String) → Trace
  classifier : (p_actionable rank winning_class_confidence : ℕ) → Trace
  sampling : (p_actionable rank seed pipeline_run_id : ℕ) → Trace

-- `_base_evidence` and the trace.
pub record Evidence : Type 0 where
  pub citation : String
  pub trust_boundary : Option String
  pub severity : Severity
  pub source : Option String
  pub description : Option String
  pub trace : Trace

pub record ReviewRequest : Type 0 where
  pub id : ℕ
  pub repo_id : String
  pub finding_id : ℕ
  pub stage : Stage
  pub evidence : Evidence

pub record ReviewDecision : Type 0 where
  pub id : ℕ
  pub review_request_id : ℕ
  pub disposition : ReviewDisposition
  pub reviewer : String
  pub rationale : String
  pub supersedes_id : Option ℕ

pub record ReviewStore : Type 0 where
  pub requests : List ReviewRequest
  pub next_request : ℕ
  pub decisions : List ReviewDecision
  pub next_decision : ℕ

unfoldable pub get_review_request : ℕ → List ReviewRequest → Option ReviewRequest
get_review_request finding_id = first_where (λ r. r.finding_id == finding_id)

unfoldable pub get_review_request_by_id : ℕ → List ReviewRequest → Option ReviewRequest
get_review_request_by_id request_id = first_where (λ r. r.id == request_id)

unfoldable pub list_review_requests : String → List ReviewRequest → List ReviewRequest
list_review_requests repo_id = filter_by (λ r. str_eq r.repo_id repo_id)

-- `ON CONFLICT (finding_id) DO UPDATE`: the row with the same finding keeps its id.
abbrev pub updated : ReviewRequest → ReviewRequest → ReviewRequest
updated new old = record new { id = old.id }

abbrev pub update_request : ReviewRequest → List ReviewRequest → List ReviewRequest
update_request r [] = []
update_request r (q ∷ qs) =
    let rest = update_request r qs in
    (if q.finding_id == r.finding_id then updated r q else q) ∷ rest

unfoldable pub upsert_review_request : ReviewRequest → ReviewStore → ReviewStore
unfolding get_review_request
upsert_review_request r s = elim (get_review_request r.finding_id s.requests) [
  | some old ↦ record s { requests = update_request r s.requests }
  | none ↦ record s {
    requests = s.requests ++ record r { id = s.next_request } ∷ [];
    next_request = suc s.next_request;
  }
]

unfoldable pub insert_review_decision : ReviewDecision → ReviewStore → ReviewDecision × ReviewStore
insert_review_decision d s =
    let row : ReviewDecision = record d { id = s.next_decision } in
    (row, record s { decisions = s.decisions ++ row ∷ []; next_decision = suc s.next_decision })

unfoldable pub list_review_decisions : ℕ → List ReviewDecision → List ReviewDecision
list_review_decisions request_id = filter_by (λ d. d.review_request_id == request_id)

unfoldable pub latest_review_decision : ℕ → List ReviewDecision → Option ReviewDecision
unfolding list_review_decisions
latest_review_decision request_id ds = last_of (list_review_decisions request_id ds)

unfoldable pub get_review_decision_by_id : ℕ → List ReviewDecision → Option ReviewDecision
get_review_decision_by_id decision_id = first_where (λ d. d.id == decision_id)
