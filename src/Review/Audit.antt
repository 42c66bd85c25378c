-- ===== src/Review/Audit.antt =====
-- src/repoauditor/review/audit.py: decisions are recorded, corrected and read. A decision that
-- the code refuses with a `ValueError` is a value of `Ruling`.
use repoauditor.Prelude.{
  ℕ, Bool, true, not, String, Option, none, some, List, ◌==◌, leb, ◌&&◌, ◌||◌, str_eq,
  if◌then◌else◌, all, any,
}
use repoauditor.Matching.Cwe.{codes}
use repoauditor.Review.Tables.{
  ReviewDisposition, confirm, dismiss, ReviewDecision, ReviewStore, get_review_request_by_id,
  insert_review_decision, list_review_decisions, latest_review_decision, get_review_decision_by_id,
}

pub data Refusal : Type 0 where
  bad_disposition no_rationale no_request not_prior wrong_repo no_decision : Refusal

pub data Ruling : Type 0 where
  refused : Refusal → Ruling
  recorded : ReviewDecision → Ruling

-- `ReviewDisposition(disposition)`.
unfoldable pub disposition_of : String → Option ReviewDisposition
disposition_of s =
    if str_eq s "confirm" then some confirm else if str_eq s "dismiss" then some dismiss else none

-- The characters that `str.strip` removes.
abbrev pub is_space : ℕ → Bool
is_space c =
    leb 9 c && leb c 13
    || leb 28 c && leb c 32
    || c == 133
    || c == 160
    || c == 5760
    || leb 8192 c && leb c 8202
    || c == 8232
    || c == 8233
    || c == 8239
    || c == 8287
    || c == 12288

-- `not rationale or not rationale.strip()`.
unfoldable pub is_blank : String → Bool
is_blank s = all is_space (codes s)

-- Whether `supersedes_id` is none or among the ids of the request's decisions.
abbrev pub is_prior : Option ℕ → ℕ → List ReviewDecision → Bool
is_prior none request_id ds = true
is_prior (some prior) request_id ds = any (λ d. d.id == prior) (list_review_decisions request_id ds)

unfoldable pub record_decision :
    ℕ → String → String → String → Option ℕ → ReviewStore → Ruling × ReviewStore
unfolding get_review_request_by_id list_review_decisions insert_review_decision
record_decision request_id reviewer disposition rationale supersedes_id s =
    elim (disposition_of disposition) [
      | none ↦ (refused bad_disposition, s)
      | some d ↦
          if is_blank rationale
          then (refused no_rationale, s)
          else elim (get_review_request_by_id request_id s.requests) [
            | none ↦ (refused no_request, s)
            | some request ↦
                if not (is_prior supersedes_id request_id s.decisions)
                then (refused not_prior, s)
                else (let (row, s') =
                      insert_review_decision
                        (record {
                          id = 0;
                          review_request_id = request_id;
                          disposition = d;
                          reviewer = reviewer;
                          rationale = rationale;
                          supersedes_id = supersedes_id;
                        })
                        s in
                    (recorded row, s'))
          ]
    ]

unfoldable pub correct_decision : ℕ → String → String → String → ReviewStore → Ruling × ReviewStore
unfolding get_review_decision_by_id record_decision
correct_decision prior_decision_id reviewer disposition rationale s =
    elim (get_review_decision_by_id prior_decision_id s.decisions) [
      | none ↦ (refused no_decision, s)
      | some prior ↦
          record_decision prior.review_request_id reviewer disposition rationale
            (some prior_decision_id) s
    ]

unfoldable pub decide : String → ℕ → String → String → String → ReviewStore → Ruling × ReviewStore
unfolding record_decision
decide repo_id request_id disposition rationale reviewer s =
    elim (get_review_request_by_id request_id s.requests) [
      | none ↦ (refused no_request, s)
      | some request ↦
          if not (str_eq request.repo_id repo_id)
          then (refused wrong_repo, s)
          else record_decision request_id reviewer disposition rationale none s
    ]

unfoldable pub effective_decision : ℕ → ReviewStore → Option ReviewDecision
unfolding latest_review_decision
effective_decision request_id s = latest_review_decision request_id s.decisions
