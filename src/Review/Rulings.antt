-- ===== src/Review/Rulings.antt =====
-- When a decision is recorded, and what it does to the trail and to the ruling in force.
use repoauditor.Prelude.{
  ℕ, ◌≡◌, ◌≢◌, ◌⊎◌, refl, ap, ◌∙◌, Bool, true, false, not, String, Option, none, some, List, [],
  ◌∷◌, ◌++◌, ◌==◌, ◌&&◌, str_eq, if◌then◌else◌, filter_by, any, is_some, arith, inl, inr,
  Bool-cases, Option-cases, str_eq_iff,
}
use repoauditor.Review.Tables.{
  ReviewDecision, ReviewRequest, ReviewStore, first_where, last_of, get_review_request_by_id,
  insert_review_decision, list_review_decisions, latest_review_decision, get_review_decision_by_id,
}
use repoauditor.Review.Audit.{
  Refusal, refused, recorded, disposition_of, is_blank, is_prior, record_decision, correct_decision,
  decide, effective_decision,
}

last_of-append : {A : Type 0} (xs : List A) (x : A) → last_of (xs ++ x ∷ []) ≡ some x
last_of-append [] x = refl
last_of-append (y ∷ xs) x = rw (last_of-append xs x)

pub filter_by-append :
    {A : Type 0} (p : A → Bool) (xs : List A) (x : A)
    → filter_by p (xs ++ x ∷ []) ≡ (if p x then filter_by p xs ++ x ∷ [] else filter_by p xs)
filter_by-append p [] x = refl
filter_by-append p (y ∷ xs) x = elim (Bool-cases (p x)) [
  | inl e ↦ ground (arith, filter_by-append p xs x)
  | inr e ↦ ground (arith, filter_by-append p xs x)
]

-- The checks of `record_decision`.
abbrev pub is_accepted : ℕ → String → String → Option ℕ → ReviewStore → Bool
is_accepted request_id disposition rationale supersedes_id s =
    is_some (disposition_of disposition)
    && (not (is_blank rationale)
        && (is_some (get_review_request_by_id request_id s.requests)
            && is_prior supersedes_id request_id s.decisions))

-- What it means that a decision was appended to the trail of a request.
pub record Appended (request_id : ℕ) (reviewer disposition rationale : String)
    (supersedes_id : Option ℕ) (before : ReviewStore) (d : ReviewDecision) (after : ReviewStore)
    : Type 0 where
  pub same_requests : after.requests ≡ before.requests
  pub one_more : after.decisions ≡ before.decisions ++ d ∷ []
  pub ruled : disposition_of disposition ≡ some d.disposition
  pub of_request : d.review_request_id ≡ request_id
  pub reason : d.rationale ≡ rationale
  pub by : d.reviewer ≡ reviewer
  pub corrects : d.supersedes_id ≡ supersedes_id
  pub in_force : effective_decision request_id after ≡ some d
  pub others :
      (other : ℕ)
      → other ≢ request_id
      → effective_decision other after ≡ effective_decision other before

insert_review_decision-in_force :
    (d : ReviewDecision) (s : ReviewStore)
    → effective_decision d.review_request_id (insert_review_decision d s).1
      ≡ some (insert_review_decision d s).0
unfolding effective_decision insert_review_decision latest_review_decision list_review_decisions
insert_review_decision-in_force d s =
    let p : ReviewDecision → Bool = λ x. x.review_request_id == d.review_request_id in
    let row : ReviewDecision = record d { id = s.next_decision } in
    let same : (d.review_request_id == d.review_request_id) ≡ true = ground arith in
    let e = filter_by-append p s.decisions row in
    rw (e, same, last_of-append (filter_by p s.decisions) row)

insert_review_decision-others :
    (d : ReviewDecision) (s : ReviewStore) (other : ℕ)
    → other ≢ d.review_request_id
    → effective_decision other (insert_review_decision d s).1 ≡ effective_decision other s
unfolding effective_decision insert_review_decision latest_review_decision list_review_decisions
insert_review_decision-others d s other h =
    let p : ReviewDecision → Bool = λ x. x.review_request_id == other in
    let row : ReviewDecision = record d { id = s.next_decision } in
    let differs : (d.review_request_id == other) ≡ false = ground arith in
    let e = filter_by-append p s.decisions row in rw (e, differs)

-- A decision is recorded exactly when its disposition is known, its rationale is not blank, the
-- request exists and what it supersedes is a decision of that request. Then the trail grows by it
-- at the end, it is in force for the request, and nothing changes for other requests; else the
-- store is as before.
pub record_decision_lem :
    (request_id : ℕ) (reviewer disposition rationale : String) (supersedes_id : Option ℕ)
    (s : ReviewStore)
    → (is_accepted request_id disposition rationale supersedes_id s ≡ true)
        × ((d : ReviewDecision) × ((record_decision request_id reviewer disposition rationale
                supersedes_id s).0
              ≡ recorded d)
            × Appended request_id reviewer disposition rationale supersedes_id s d
                (record_decision request_id reviewer disposition rationale supersedes_id s).1)
      ⊎ (is_accepted request_id disposition rationale supersedes_id s ≡ false)
        × ((why : Refusal) × (record_decision request_id reviewer disposition rationale
                supersedes_id s
              ≡ (refused why, s)))
unfolding record_decision
record_decision_lem i reviewer disposition rationale prior s =
    elim (Option-cases (disposition_of disposition)) [
      | inl e ↦ rw (e, record_decision) (inr (refl, (_, refl)))
      | inr (d, e) ↦ elim (Bool-cases (is_blank rationale)) [
        | inl b ↦ rw (e, b, record_decision) (inr (refl, (_, refl)))
        | inr b ↦ elim (Option-cases (get_review_request_by_id i s.requests)) [
          | inl g ↦ rw (e, b, g, record_decision) (inr (refl, (_, refl)))
          | inr (r, g) ↦ elim (Bool-cases (is_prior prior i s.decisions)) [
            | inr p ↦ rw (e, b, g, p, record_decision) (inr (refl, (_, refl)))
            | inl p ↦
                let row : ReviewDecision = record {
                  id = 0;
                  review_request_id = i;
                  disposition = d;
                  reviewer = reviewer;
                  rationale = rationale;
                  supersedes_id = prior;
                } in
                rw (e, b, g, p, record_decision)
                  (inl (
                    refl,
                    (
                      _,
                      refl,
                      record {
                        same_requests = unfold insert_review_decision in refl;
                        one_more = unfold insert_review_decision in refl;
                        ruled = e;
                        of_request = refl;
                        reason = refl;
                        by = refl;
                        corrects = refl;
                        in_force = insert_review_decision-in_force row s;
                        others = λ other h. insert_review_decision-others row s other h;
                      },
                    ),
                  ))
          ]
        ]
      ]
    ]

first_where-any :
    {A : Type 0} (p q : A → Bool) (xs : List A) (a : A)
    → first_where p xs ≡ some a
    → q a ≡ true
    → any p (filter_by q xs) ≡ true
first_where-any p q [] a h k = cc
first_where-any p q (x ∷ xs) a h k = elim (Bool-cases (p x)) [
  | inl e ↦ let same : x ≡ a = cc (rw e at h) in let qx : q x ≡ true = ap q same ∙ k in rw (qx, e)
  | inr e ↦
      let rest = first_where-any p q xs a (rw e at h) k in
      elim (Bool-cases (q x)) [ inl y ↦ rw (y, e, rest) | inr y ↦ rw (y, rest) ]
]

-- A correction of a decision in the trail, with a known disposition, a rationale and a request, is
-- always recorded: it supersedes that decision, is appended to the trail of the same request, and
-- is in force for it; the corrected decision stays in the trail as it was.
pub correct_decision_lem :
    (prior_id : ℕ) (reviewer disposition rationale : String) (s : ReviewStore)
    (prior : ReviewDecision)
    → get_review_decision_by_id prior_id s.decisions ≡ some prior
    → is_accepted prior.review_request_id disposition rationale none s ≡ true
    → (d : ReviewDecision) × ((correct_decision prior_id reviewer disposition rationale s).0
        ≡ recorded d)
      × Appended prior.review_request_id reviewer disposition rationale
          (some prior_id)
          s
          d
          (correct_decision prior_id reviewer disposition rationale s).1
unfolding correct_decision get_review_decision_by_id
correct_decision_lem prior_id reviewer disposition rationale s prior found ok =
    let i = prior.review_request_id in
    let same : (prior.review_request_id == i) ≡ true = ground arith in
    let known : is_prior (some prior_id) i s.decisions ≡ true =
      unfold list_review_decisions in
      first_where-any (λ d. d.id == prior_id) (λ d. d.review_request_id == i) s.decisions prior
        found same in
    rw (found, correct_decision)
      (elim (record_decision_lem i reviewer disposition rationale (some prior_id) s) [
        | inl (good, t) ↦ t
        | inr (bad, t) ↦ absurd (ground arith)
      ])

-- `decide` records nothing for a request of another repository; what it records is the ruling in
-- force for a request of the named one.
pub decide-repo_id :
    (repo_id : String) (request_id : ℕ) (disposition rationale reviewer : String) (s : ReviewStore)
    → ((why : Refusal) × (decide repo_id request_id disposition rationale reviewer s
          ≡ (refused why, s)))
      ⊎ ((d : ReviewDecision) × (r : ReviewRequest) × (get_review_request_by_id request_id
              s.requests
            ≡ some r)
          × (r.repo_id ≡ repo_id)
          × ((decide repo_id request_id disposition rationale reviewer s).0 ≡ recorded d)
          × Appended request_id reviewer disposition rationale none s d
              (decide repo_id request_id disposition rationale reviewer s).1)
unfolding decide
decide-repo_id repo i disposition rationale reviewer s =
    elim (Option-cases (get_review_request_by_id i s.requests)) [
      | inl e ↦ rw (e, decide) (inl (_, refl))
      | inr (r, e) ↦ elim (Bool-cases (str_eq r.repo_id repo)) [
        | inr b ↦ rw (e, b, decide) (inl (_, refl))
        | inl b ↦
            rw (e, b, decide)
              (elim (record_decision_lem i reviewer disposition rationale none s) [
                | inl (good, (d, q, t)) ↦ inr (d, r, refl, (str_eq_iff r.repo_id repo).0 b, q, t)
                | inr (bad, (why, q)) ↦ inl (why, q)
              ])
      ]
    ]
