-- ===== src/Examples/Reviews.antt =====
-- One held finding, its request, a dismissal and its correction.
use repoauditor.Prelude.{
  ℕ, ◌≡◌, ◌≢◌, refl, ◌⊎◌, inl, true, false, not, ◌&&◌, ◌||◌, none, some, [], ◌∷◌, filter_by, str_eq,
  All,
}
use repoauditor.Prelude.Rows.{Holds}
use repoauditor.Store.{medium, confirmed, killed, deferred, unresolved, status_eq}
use repoauditor.Review.Tables.{
  confirm, dismiss, no_trace, falsify, ReviewRequest, ReviewDecision, ReviewStore,
  get_review_request, get_review_request_by_id, get_review_decision_by_id, list_review_requests,
}
use repoauditor.Review.Audit.{
  Refusal, refused, recorded, record_decision, correct_decision, disposition_of, is_blank,
}
use repoauditor.Review.Rulings.{Appended, is_accepted, record_decision_lem, correct_decision_lem}
use repoauditor.Review.Gate.{
  row_id, is_blocked, AtMostOne, list_analyzable_findings, list_analyzable_findings-is_blocked,
  record_decision-is_blocked,
}
use repoauditor.Review.Counting.{Counted, list_countable_findings-Counted}
use repoauditor.Review.Gate.{list_countable_findings}
use repoauditor.Matching.Defs.{find_matches}
use repoauditor.Review.Checkpoint.{
  Inputs, ReviewConfig, Digest, has_key, add_uncertain, add_unresolved, raise_review_requests,
}
use repoauditor.Review.Raising.{raise_review_requests_holds, raise_review_requests_keeps}
use repoauditor.Review.Unsampled.{raise_review_requests_without_run}
use repoauditor.Examples.Samples.{three, by_lens}

abbrev request : ReviewRequest
request = record {
  id = 7;
  repo_id = "shop";
  finding_id = 1;
  stage = falsify;
  evidence = record {
    citation = "cursor.execute(q)";
    trust_boundary = none;
    severity = medium;
    source = some "injection";
    description = none;
    trace = no_trace;
  };
}

abbrev dismissal : ReviewDecision
dismissal = record {
  id = 1;
  review_request_id = 7;
  disposition = dismiss;
  reviewer = "ann";
  rationale = "not reachable";
  supersedes_id = none;
}

abbrev store : ReviewStore
store = record {
  requests = request ∷ [];
  next_request = 8;
  decisions = dismissal ∷ [];
  next_decision = 2;
}

unique : AtMostOne store.requests
unfolding get_review_request
unique = (refl, tt)

list_analyzable_findings-is_blocked_example :
    list_analyzable_findings "shop" store three
    ≡ filter_by
        (λ f.
          str_eq f.repo_id "shop"
          && (not (
                status_eq f.falsification_status killed
                || status_eq f.falsification_status deferred)
              && not (is_blocked (row_id f) store)))
        three
list_analyzable_findings-is_blocked_example =
    list_analyzable_findings-is_blocked "shop" store three unique

abbrev confirmation : ReviewDecision
confirmation = record dismissal {
  id = 2;
  disposition = confirm;
  rationale = "reachable";
  supersedes_id = some 1;
}

of_finding : get_review_request 1 store.requests ≡ some request
unfolding get_review_request
of_finding = refl

confirmed_now :
    (record_decision 7 "ann" "confirm" "reachable" (some 1) store).0 ≡ recorded confirmation
unfolding record_decision disposition_of is_blank
confirmed_now = refl

record_decision-is_blocked_example :
    (is_blocked 1 (record_decision 7 "ann" "confirm" "reachable" (some 1) store).1 ≡ false)
    × ((other : ℕ)
        → ((q : ReviewRequest) → get_review_request other store.requests ≡ some q → q.id ≢ 7)
        → is_blocked other (record_decision 7 "ann" "confirm" "reachable" (some 1) store).1
          ≡ is_blocked other store)
record_decision-is_blocked_example =
    record_decision-is_blocked 1 "ann" "confirm" "reachable" (some 1) store request confirmation
      of_finding confirmed_now

record_decision_lem_example :
    (is_accepted 7 "confirm" "reachable" (some 1) store ≡ true)
      × ((d : ReviewDecision) × ((record_decision 7 "ann" "confirm" "reachable" (some 1) store).0
            ≡ recorded d)
          × Appended 7 "ann" "confirm" "reachable"
              (some 1)
              store
              d
              (record_decision 7 "ann" "confirm" "reachable" (some 1) store).1)
    ⊎ (is_accepted 7 "confirm" "reachable" (some 1) store ≡ false)
      × ((why : Refusal) × (record_decision 7 "ann" "confirm" "reachable" (some 1) store
            ≡ (refused why, store)))
record_decision_lem_example = record_decision_lem 7 "ann" "confirm" "reachable" (some 1) store

prior_found : get_review_decision_by_id 1 store.decisions ≡ some dismissal
unfolding get_review_decision_by_id
prior_found = refl

accepted : is_accepted 7 "confirm" "reachable" none store ≡ true
unfolding disposition_of is_blank get_review_request_by_id
accepted = refl

correct_decision_lem_example :
    (d : ReviewDecision) × ((correct_decision 1 "ann" "confirm" "reachable" store).0 ≡ recorded d)
    × Appended 7 "ann" "confirm" "reachable"
        (some 1)
        store
        d
        (correct_decision 1 "ann" "confirm" "reachable" store).1
correct_decision_lem_example =
    correct_decision_lem 1 "ann" "confirm" "reachable" store dismissal prior_found accepted

abbrev inputs : Inputs
inputs = record {
  findings = three;
  triage_results =
      record { finding_id = 2; p_actionable = 550000; rank = 1; suppressed = false } ∷ [];
  boundary_name = λ b. none;
  iterations = λ f. 0;
  unresolved_debate = λ f. none;
}

abbrev config : ReviewConfig
config = record {
  triage_confidence_threshold = 600000;
  low_rank_sample_size = 2;
  low_rank_sample_seed = 11;
}

abbrev digest : Digest
digest seed run repo finding = finding

raise_review_requests_holds_example :
    All
      (λ f.
        f.falsification_status ≡ unresolved
        → (q : ReviewRequest) × (get_review_request
              (row_id f)
              (raise_review_requests digest inputs config "shop" (some 5) store).1.requests
            ≡ some q))
      three
raise_review_requests_holds_example =
    raise_review_requests_holds digest inputs config "shop" (some 5) store

raise_review_requests_keeps_example :
    AtMostOne (raise_review_requests digest inputs config "shop" (some 5) store).1.requests
    × ((raise_review_requests digest inputs config "shop" (some 5) store).1.decisions
        ≡ store.decisions)
    × ((i : ℕ) (q : ReviewRequest)
        → get_review_request i store.requests ≡ some q
        → (q' : ReviewRequest) × (get_review_request i
              (raise_review_requests digest inputs config "shop" (some 5) store).1.requests
            ≡ some q')
          × (q'.id ≡ q.id))
raise_review_requests_keeps_example =
    raise_review_requests_keeps digest inputs config "shop" (some 5) store unique

-- The finding of the request was confirmed since, and no longer needs a review.
abbrev reviewed : Inputs
reviewed = record inputs {
  findings = record by_lens { falsification_status = confirmed } ∷ [];
  triage_results = [];
}

among_prior : Holds request (list_review_requests "shop" store.requests)
unfolding list_review_requests
among_prior = inl refl

not_needed :
    has_key 1 (
      add_unresolved reviewed reviewed.findings
        (add_uncertain reviewed config reviewed.triage_results []))
    ≡ false
unfolding add_unresolved add_uncertain
not_needed = refl

raise_review_requests_without_run_example :
    Holds request (raise_review_requests digest reviewed config "shop" none store).0
raise_review_requests_without_run_example =
    raise_review_requests_without_run digest reviewed config "shop" store request unique among_prior
      refl not_needed

list_countable_findings-Counted_example :
    Counted
      (find_matches (list_analyzable_findings "shop" store three)).groups
      (list_countable_findings "shop" store three)
list_countable_findings-Counted_example = list_countable_findings-Counted "shop" store three
