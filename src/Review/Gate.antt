-- ===== src/Review/Gate.antt =====
-- The gate: `is_blocked` of src/repoauditor/review/checkpoint.py, and `list_analyzable_findings` and
-- `list_countable_findings` of src/repoauditor/store/db.py.
use repoauditor.Prelude.{
  ℕ, ◌≡◌, ◌≢◌, refl, sym, ap, ◌∙◌, Bool, true, false, not, String, Option, none, some, List, [],
  ◌∷◌, ◌==◌, ◌&&◌, ◌||◌, str_eq, filter_by, any, arith, inl, inr, Bool-cases, Option-cases,
}
use repoauditor.Store.{Finding, killed, deferred, status_eq}
use repoauditor.Matching.Defs.{find_matches, MatchGroup, representative}
use repoauditor.Review.Tables.{
  confirm, dismiss, ReviewDecision, ReviewRequest, ReviewStore, get_review_request,
  latest_review_decision,
}
use repoauditor.Review.Audit.{record_decision, recorded, effective_decision}
use repoauditor.Review.Rulings.{record_decision_lem}

-- The id of a row of `finding`; a stored row has one, from 1 on.
abbrev pub row_id : Finding → ℕ
row_id f = elim f.id [ some n ↦ n | none ↦ 0 ]

-- Whether the ruling in force, if there is one, is another than `confirm`.
abbrev pub withholds : Option ReviewDecision → Bool
withholds none = true
withholds (some d) = elim d.disposition [ confirm ↦ false | dismiss ↦ true ]

unfoldable pub is_blocked : ℕ → ReviewStore → Bool
unfolding get_review_request latest_review_decision
is_blocked finding_id s = elim (get_review_request finding_id s.requests) [
  | none ↦ false
  | some request ↦ withholds (latest_review_decision request.id s.decisions)
]

-- The rows of the query: of the repository, neither killed nor deferred, and without a request
-- whose latest disposition differs from `confirm`.
abbrev pub is_analyzable : String → ReviewStore → Finding → Bool
is_analyzable repo_id s f =
    str_eq f.repo_id repo_id
    && (not (status_eq f.falsification_status killed || status_eq f.falsification_status deferred)
        && not (
            any
              (λ rr.
                rr.finding_id == row_id f && withholds (latest_review_decision rr.id s.decisions))
              s.requests))

unfoldable pub list_analyzable_findings : String → ReviewStore → List Finding → List Finding
unfolding latest_review_decision
list_analyzable_findings repo_id s rows = filter_by (is_analyzable repo_id s) rows

abbrev pub representatives : List MatchGroup → List Finding
representatives [] = []
representatives ([] ∷ gs) = representatives gs
representatives ((m ∷ ms) ∷ gs) = representative m ms ∷ representatives gs

unfoldable pub list_countable_findings : String → ReviewStore → List Finding → List Finding
unfolding list_analyzable_findings
list_countable_findings repo_id s rows =
    representatives (find_matches (list_analyzable_findings repo_id s rows)).groups

-- Each finding has one request at most: UNIQUE (finding_id).
abbrev pub AtMostOne : List ReviewRequest → Type 0
AtMostOne [] = Unit
AtMostOne (r ∷ rs) = (get_review_request r.finding_id rs ≡ none) × AtMostOne rs

any-none :
    (id : ℕ) (p : ReviewRequest → Bool) (rs : List ReviewRequest)
    → get_review_request id rs ≡ none
    → any (λ r. r.finding_id == id && p r) rs ≡ false
unfolding get_review_request
any-none id p [] h = refl
any-none id p (r ∷ rs) h = elim (Bool-cases (r.finding_id == id)) [
  | inl e ↦ cc (rw (e, get_review_request) at h)
  | inr e ↦ rw e (any-none id p rs (rw (e, get_review_request) at h))
]

any-first :
    (id : ℕ) (p : ReviewRequest → Bool) (rs : List ReviewRequest)
    → AtMostOne rs
    → any (λ r. r.finding_id == id && p r) rs
      ≡ elim (get_review_request id rs) [ none ↦ false | some r ↦ p r ]
unfolding get_review_request
any-first id p [] u = refl
any-first id p (r ∷ rs) u = elim (Bool-cases (r.finding_id == id)) [
  | inl e ↦
      let same : r.finding_id ≡ id = ground arith in
      let rest = any-none id p rs (rw same at u.0) in
      rw (e, rest, get_review_request) (elim (Bool-cases (p r)) [ inl h ↦ rw h | inr h ↦ rw h ])
  | inr e ↦ rw (e, get_review_request) (any-first id p rs u.1)
]

filter_by-cong :
    {A : Type 0} (p q : A → Bool) (xs : List A)
    → ((x : A) → p x ≡ q x)
    → filter_by p xs ≡ filter_by q xs
filter_by-cong p q [] h = refl
filter_by-cong p q (x ∷ xs) h = rw (h x, filter_by-cong p q xs h)

-- When each finding has one request at most, the findings that the analysis may read are those of
-- the repository that are neither killed nor deferred and that `is_blocked` does not hold back.
pub list_analyzable_findings-is_blocked :
    (repo_id : String) (s : ReviewStore) (rows : List Finding)
    → AtMostOne s.requests
    → list_analyzable_findings repo_id s rows
      ≡ filter_by
          (λ f.
            str_eq f.repo_id repo_id
            && (not (
                  status_eq f.falsification_status killed
                  || status_eq f.falsification_status deferred)
                && not (is_blocked (row_id f) s)))
          rows
unfolding list_analyzable_findings is_blocked
list_analyzable_findings-is_blocked repo_id s rows u =
    filter_by-cong (is_analyzable repo_id s) _ rows (λ f.
      let e =
        any-first (row_id f) (λ r. withholds (latest_review_decision r.id s.decisions)) s.requests
          u in
      elim (Option-cases (get_review_request (row_id f) s.requests)) [
        | inl g ↦ rw (e, g, is_blocked)
        | inr (r, g) ↦ rw (e, g, is_blocked)
      ])

is_blocked-after :
    (finding_id : ℕ) (r : ReviewRequest) (before after : ReviewStore)
    → after.requests ≡ before.requests
    → get_review_request finding_id before.requests ≡ some r
    → is_blocked finding_id after ≡ withholds (effective_decision r.id after)
unfolding is_blocked effective_decision
is_blocked-after i r before after e g = rw (e, g, is_blocked)

is_blocked-none :
    (finding_id : ℕ) (before after : ReviewStore)
    → after.requests ≡ before.requests
    → get_review_request finding_id before.requests ≡ none
    → is_blocked finding_id after ≡ false
unfolding is_blocked
is_blocked-none i before after e g = rw (e, g, is_blocked)

-- A decision recorded on the request of a finding releases the finding if it confirms and
-- withholds it if it dismisses; a finding without a request, or with another, is held back or not
-- as before.
pub record_decision-is_blocked :
    (finding_id : ℕ) (reviewer disposition rationale : String) (supersedes_id : Option ℕ)
    (s : ReviewStore) (r : ReviewRequest) (d : ReviewDecision)
    → get_review_request finding_id s.requests ≡ some r
    → (record_decision r.id reviewer disposition rationale supersedes_id s).0 ≡ recorded d
    → (is_blocked finding_id (record_decision r.id reviewer disposition rationale supersedes_id s).1
        ≡ elim d.disposition [ confirm ↦ false | dismiss ↦ true ])
      × ((other : ℕ)
          → ((q : ReviewRequest) → get_review_request other s.requests ≡ some q → q.id ≢ r.id)
          → is_blocked other (record_decision r.id reviewer disposition rationale supersedes_id s).1
            ≡ is_blocked other s)
record_decision-is_blocked i reviewer disposition rationale prior s r d g h =
    elim (record_decision_lem r.id reviewer disposition rationale prior s) [
      | inr (bad, (why, e)) ↦ cc (rw e at h)
      | inl (good, (d', e, t)) ↦
          let s' = (record_decision r.id reviewer disposition rationale prior s).1 in
          let same : d' ≡ d = cc (rw e at h) in
          let held = is_blocked-after i r s s' t.same_requests g in
          (
            held ∙ rw (t.in_force, same) refl,
            λ other apart. elim (Option-cases (get_review_request other s.requests)) [
              | inl n ↦
                  is_blocked-none other s s' t.same_requests n
                  ∙ sym (is_blocked-none other s s refl n)
              | inr (q, n) ↦
                  is_blocked-after other q s s' t.same_requests n
                  ∙ ap withholds (t.others q.id (apart q n))
                  ∙ sym (is_blocked-after other q s s refl n)
            ],
          )
    ]
