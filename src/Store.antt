-- ===== src/Store.antt =====
-- src/repoauditor/store/models.py: the data that every stage speaks. The tables themselves are in
-- the modules of the stages that write them. A probability or confidence, a float in [0, 1] of the
-- program, is a whole number of millionths; a line number is a natural number.
pub mod Ranks
use repoauditor.Prelude.{
  ℕ, Bool, true, false, not, String, Option, none, some, List, [], is_some, if◌then◌else◌, ◌&&◌,
  ◌||◌,
}
use repoauditor.Prelude.Ints.{ℤ, pos, natural, int_ltb}

pub data Severity : Type 0 where
  info low medium high critical : Severity

pub data FalsificationStatus : Type 0 where
  confirmed killed unresolved deferred : FalsificationStatus

-- `a is b` on the members of an enum.
abbrev pub status_eq : FalsificationStatus → FalsificationStatus → Bool
status_eq confirmed confirmed = true
status_eq killed killed = true
status_eq unresolved unresolved = true
status_eq deferred deferred = true
status_eq _ _ = false

pub data SourceType : Type 0 where
  lens tool : SourceType

-- The certainty 1.0.
abbrev pub one : ℕ
one = 1000000

pub record Corroboration : Type 0 where
  pub source_type : SourceType
  pub source_name : String
  pub note : Option Severity
  pub score : Option ℕ

pub record Finding : Type 0 where
  pub id : Option ℕ
  pub repo_id : String
  pub title : String
  pub file : String
  pub line_start : ℕ
  pub line_end : ℕ
  pub citation_snippet : String
  pub identity_key : Option String
  pub source_lens : Option String
  pub source_tool : Option String
  pub confidence : ℕ
  pub severity : Severity
  pub falsification_status : FalsificationStatus
  pub trust_boundary_id : Option ℕ
  pub entity_id : Option ℕ
  pub description : Option String
  pub corroborated_by : List Corroboration

-- One row of the classifier's verdicts.
pub record TriageResult : Type 0 where
  pub finding_id : ℕ
  pub p_actionable : ℕ
  pub rank : ℕ
  pub suppressed : Bool

pub data Rejection : Type 0 where
  confidence_out_of_range missing_source line_order : Rejection

-- What the constructor of a finding is given: the numbers are not checked yet.
pub record FindingFields : Type 0 where
  pub repo_id : String
  pub title : String
  pub file : String
  pub line_start : ℤ
  pub line_end : ℤ
  pub citation_snippet : String
  pub identity_key : Option String
  pub source_lens : Option String
  pub source_tool : Option String
  pub confidence : ℤ
  pub severity : Severity
  pub falsification_status : FalsificationStatus
  pub trust_boundary_id : Option ℕ
  pub description : Option String

-- The field constraint on `confidence` and `_require_source_and_line_order`.
unfoldable pub reject_finding : FindingFields → Option Rejection
reject_finding f =
    if int_ltb f.confidence (pos 0) || int_ltb (pos one) f.confidence
    then some confidence_out_of_range
    else if not (is_some f.source_lens) && not (is_some f.source_tool)
    then some missing_source
    else if int_ltb f.line_end f.line_start
    then some line_order
    else none

-- `Finding(...)`: none if it raises. A line below zero, which no anchored candidate has, becomes 0.
unfoldable pub new_finding : FindingFields → Option Finding
unfolding reject_finding
new_finding f = elim (reject_finding f) [
  | some _ ↦ none
  | none ↦ some (record {
    id = none;
    repo_id = f.repo_id;
    title = f.title;
    file = f.file;
    line_start = natural f.line_start;
    line_end = natural f.line_end;
    citation_snippet = f.citation_snippet;
    identity_key = f.identity_key;
    source_lens = f.source_lens;
    source_tool = f.source_tool;
    confidence = natural f.confidence;
    severity = f.severity;
    falsification_status = f.falsification_status;
    trust_boundary_id = f.trust_boundary_id;
    entity_id = none;
    description = f.description;
    corroborated_by = [];
  })
]
