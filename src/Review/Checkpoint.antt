-- ===== src/Review/Checkpoint.antt =====
-- `raise_review_requests` and `open_review_requests` of src/repoauditor/review/checkpoint.py. The
-- other tables it reads are a record; the digest that orders the sample is a parameter.
use repoauditor.Prelude.{
  ℕ, ◌-◌, Bool, not, String, Option, none, some, List, [], ◌∷◌, ◌++◌, ◌==◌, str_eq, ltb, leb, ◌||◌,
  option_eq, is_some, if◌then◌else◌, filter_by, any, take, max,
}
use repoauditor.Prelude.Sort.{sorted}
use repoauditor.Store.{Finding, confirmed, unresolved, status_eq, TriageResult, one}
use repoauditor.Review.Tables.{
  Trace, no_trace, falsification_trace, debate, classifier, sampling, Evidence, Stage, falsify,
  normalize, triage, triage_sample, ReviewRequest, ReviewStore, upsert_review_request,
  list_review_requests, latest_review_decision, first_where,
}
use repoauditor.Review.Gate.{row_id}

-- What the checkpoint reads of the other stages: rows of the tables, trust boundaries, the number
-- of logged iterations, and the rationale of a region's unresolved debate.
pub record Inputs : Type 0 where
  pub findings : List Finding
  pub triage_results : List TriageResult
  pub boundary_name : Option ℕ → Option String
  pub iterations : Finding → ℕ
  pub unresolved_debate : Finding → Option String

pub record ReviewConfig : Type 0 where
  pub triage_confidence_threshold : ℕ
  pub low_rank_sample_size : ℕ
  pub low_rank_sample_seed : ℕ

-- sha256 of "seed:run:repo:finding", as a number.
abbrev pub Digest : Type 0
Digest = ℕ → ℕ → String → ℕ → ℕ

-- `a or b` on texts: an empty text is false.
abbrev pub or_else : Option String → Option String → Option String
or_else (some a) b = if str_eq a "" then b else some a
or_else none b = b

unfoldable pub base_evidence : Inputs → Finding → Trace → Evidence
base_evidence w f trace = record {
  citation = f.citation_snippet;
  trust_boundary = w.boundary_name f.trust_boundary_id;
  severity = f.severity;
  source = or_else f.source_tool f.source_lens;
  description = f.description;
  trace = trace;
}

-- A request that no row stands for yet.
unfoldable pub request_for : Inputs → Finding → Stage → Trace → ReviewRequest
unfolding base_evidence
request_for w f stage trace = record {
  id = 0;
  repo_id = f.repo_id;
  finding_id = row_id f;
  stage = stage;
  evidence = base_evidence w f trace;
}

unfoldable pub unresolved_request : Inputs → Finding → ReviewRequest
unresolved_request w f =
    if not (w.iterations f == 0)
    then request_for w f falsify (falsification_trace (w.iterations f))
    else elim (w.unresolved_debate f) [
      | some rationale ↦ request_for w f normalize (debate rationale)
      | none ↦ request_for w f falsify no_trace
    ]

abbrev pub winning_confidence : TriageResult → ℕ
winning_confidence t = max t.p_actionable (one - t.p_actionable)

unfoldable pub triage_request : Inputs → TriageResult → Finding → ReviewRequest
triage_request w t f =
    request_for w f triage (classifier t.p_actionable t.rank (winning_confidence t))

unfoldable pub sampled_triage_request :
    Inputs → ReviewConfig → ℕ → TriageResult → Finding → ReviewRequest
sampled_triage_request w c run t f =
    request_for w f triage_sample (sampling t.p_actionable t.rank c.low_rank_sample_seed run)

-- The dictionary of requests by finding, in the order of its keys.
abbrev pub put : ReviewRequest → List ReviewRequest → List ReviewRequest
put r [] = r ∷ []
put r (q ∷ qs) = let rest = put r qs in if q.finding_id == r.finding_id then r ∷ qs else q ∷ rest

abbrev pub has_key : ℕ → List ReviewRequest → Bool
has_key id rs = any (λ r. r.finding_id == id) rs

abbrev pub setdefault : ReviewRequest → List ReviewRequest → List ReviewRequest
setdefault r rs = if has_key r.finding_id rs then rs else rs ++ r ∷ []

abbrev pub find_finding : ℕ → List Finding → Option Finding
find_finding id fs = first_where (λ f. row_id f == id) fs

unfoldable pub add_uncertain :
    Inputs → ReviewConfig → List TriageResult → List ReviewRequest → List ReviewRequest
unfolding triage_request
add_uncertain w c [] rs = rs
add_uncertain w c (t ∷ ts) rs = elim (find_finding t.finding_id w.findings) [
  | none ↦ add_uncertain w c ts rs
  | some f ↦ add_uncertain w c ts (
      if ltb (winning_confidence t) c.triage_confidence_threshold
      then put (triage_request w t f) rs
      else rs)
]

unfoldable pub add_unresolved : Inputs → List Finding → List ReviewRequest → List ReviewRequest
unfolding unresolved_request
add_unresolved w [] rs = rs
add_unresolved w (f ∷ fs) rs =
    add_unresolved w fs
      (if status_eq f.falsification_status unresolved then put (unresolved_request w f) rs else rs)

-- `evidence.get("sampling", {}).get("pipeline_run_id")`.
abbrev pub run_of : ReviewRequest → Option ℕ
run_of r = elim r.evidence.trace [ sampling p k seed run ↦ some run | _ ↦ none ]

abbrev pub is_of_run : Option ℕ → ReviewRequest → Bool
is_of_run run r = option_eq ◌==◌ (run_of r) run

abbrev pub keep_sampled : List ReviewRequest → List ReviewRequest → List ReviewRequest
keep_sampled [] rs = rs
keep_sampled (p ∷ ps) rs = keep_sampled ps (setdefault p rs)

-- The rows that may be sampled, each with the finding it is about.
unfoldable pub sample_candidates :
    Inputs
    → List ReviewRequest
    → List ReviewRequest
    → List TriageResult
    → List (TriageResult × Finding)
sample_candidates w prior rs [] = []
sample_candidates w prior rs (t ∷ ts) =
    let rest = sample_candidates w prior rs ts in
    elim (find_finding t.finding_id w.findings) [
      | none ↦ rest
      | some f ↦
          if not t.suppressed
            || not (status_eq f.falsification_status confirmed)
            || has_key t.finding_id rs
            || has_key t.finding_id prior
          then rest
          else (t, f) ∷ rest
    ]

abbrev pub digest_le :
    Digest → ReviewConfig → ℕ → String → TriageResult × Finding → TriageResult × Finding → Bool
digest_le h c run repo a b =
    leb (h c.low_rank_sample_seed run repo a.0.finding_id)
      (h c.low_rank_sample_seed run repo b.0.finding_id)

unfoldable pub put_samples :
    Inputs
    → ReviewConfig
    → ℕ
    → List (TriageResult × Finding)
    → List ReviewRequest
    → List ReviewRequest
unfolding sampled_triage_request
put_samples w c run [] rs = rs
put_samples w c run ((t, f) ∷ more) rs =
    put_samples w c run more (put (sampled_triage_request w c run t f) rs)

-- A sample of a run that has none yet.
unfoldable pub new_samples :
    Digest
    → Inputs
    → ReviewConfig
    → String
    → List ReviewRequest
    → List ReviewRequest
    → Option ℕ
    → List ReviewRequest
unfolding sample_candidates put_samples
new_samples h w c repo prior rs none = rs
new_samples h w c repo prior rs (some k) =
    if c.low_rank_sample_size == 0
    then rs
    else put_samples w c k
        (take c.low_rank_sample_size
          (sorted (digest_le h c k repo) (sample_candidates w prior rs w.triage_results)))
        rs

-- The part of the function on sampling.
unfoldable pub add_samples :
    Digest
    → Inputs
    → ReviewConfig
    → String
    → Option ℕ
    → List ReviewRequest
    → List ReviewRequest
    → List ReviewRequest
unfolding new_samples
add_samples h w c repo run prior rs =
    if any (is_of_run run) prior
    then keep_sampled (filter_by (is_of_run run) prior) rs
    else new_samples h w c repo prior rs run

unfoldable pub upsert_each : List ReviewRequest → ReviewStore → ReviewStore
unfolding upsert_review_request
upsert_each [] s = s
upsert_each (r ∷ rs) s = upsert_each rs (upsert_review_request r s)

unfoldable pub raise_review_requests :
    Digest
    → Inputs
    → ReviewConfig
    → String
    → Option ℕ
    → ReviewStore
    → List ReviewRequest × ReviewStore
unfolding add_uncertain add_unresolved add_samples list_review_requests
raise_review_requests h w c repo run s =
    let held = add_unresolved w w.findings (add_uncertain w c w.triage_results []) in
    let requests = add_samples h w c repo run (list_review_requests repo s.requests) held in
    (requests, upsert_each requests s)

unfoldable pub open_review_requests : String → ReviewStore → List ReviewRequest
unfolding list_review_requests latest_review_decision
open_review_requests repo s =
    filter_by (λ r. not (is_some (latest_review_decision r.id s.decisions)))
      (list_review_requests repo s.requests)
