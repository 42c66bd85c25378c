-- ===== src/Review/Upserts.antt =====
-- What writing requests to the table `review_request` keeps and adds.
use repoauditor.Prelude.{
  ℕ, ◌≡◌, refl, ap, ◌∙◌, true, false, Option, none, some, List, [], ◌∷◌, ◌++◌, ◌==◌, if◌then◌else◌,
  subst, arith, inl, inr, Bool-cases, Option-cases,
}
use repoauditor.Review.Tables.{
  ReviewRequest, ReviewStore, get_review_request, upsert_review_request, update_request, updated,
}
use repoauditor.Review.Gate.{AtMostOne}
use repoauditor.Review.Checkpoint.{has_key, upsert_each}

abbrev refreshed : ReviewRequest → Option ReviewRequest → Option ReviewRequest
refreshed r none = none
refreshed r (some q) = some (if q.finding_id == r.finding_id then updated r q else q)

get_review_request-update :
    (i : ℕ) (r : ReviewRequest) (qs : List ReviewRequest)
    → get_review_request i (update_request r qs) ≡ refreshed r (get_review_request i qs)
unfolding get_review_request
get_review_request-update i r [] = refl
get_review_request-update i r (q ∷ qs) =
    let rest = get_review_request-update i r qs in
    elim (Bool-cases (q.finding_id == r.finding_id)) [
      | inl e ↦
          let same : r.finding_id ≡ q.finding_id = ground arith in
          elim (Bool-cases (q.finding_id == i)) [
            | inl y ↦ rw (e, y, get_review_request) (ground arith)
            | inr y ↦
                let y' : (r.finding_id == i) ≡ false = ground arith in
                rw (e, y, y', get_review_request) rest
          ]
      | inr e ↦ elim (Bool-cases (q.finding_id == i)) [
        | inl y ↦ rw (e, y, get_review_request) (rw e refl)
        | inr y ↦ rw (e, y, get_review_request) rest
      ]
    ]

get_review_request-append :
    (i : ℕ) (qs : List ReviewRequest) (x : ReviewRequest)
    → get_review_request i (qs ++ x ∷ []) ≡ elim (get_review_request i qs) [
      | some q ↦ some q
      | none ↦ if x.finding_id == i then some x else none
    ]
unfolding get_review_request
get_review_request-append i [] x = refl
get_review_request-append i (q ∷ qs) x = elim (Bool-cases (q.finding_id == i)) [
  | inl y ↦ rw (y, get_review_request) refl
  | inr y ↦ rw (y, get_review_request) (get_review_request-append i qs x)
]

AtMostOne-update :
    (r : ReviewRequest) (qs : List ReviewRequest) → AtMostOne qs → AtMostOne (update_request r qs)
AtMostOne-update r [] u = tt
AtMostOne-update r (q ∷ qs) u = elim (Bool-cases (q.finding_id == r.finding_id)) [
  | inl e ↦
      let same : r.finding_id ≡ q.finding_id = ground arith in
      rw e (
        rw same (get_review_request-update q.finding_id r qs ∙ ap (refreshed r) u.0),
        AtMostOne-update r qs u.1,
      )
  | inr e ↦ rw e (
    get_review_request-update q.finding_id r qs ∙ ap (refreshed r) u.0,
    AtMostOne-update r qs u.1,
  )
]

AtMostOne-append :
    (qs : List ReviewRequest) (x : ReviewRequest)
    → AtMostOne qs
    → get_review_request x.finding_id qs ≡ none
    → AtMostOne (qs ++ x ∷ [])
unfolding get_review_request
AtMostOne-append [] x u h = (refl, tt)
AtMostOne-append (q ∷ qs) x u h = elim (Bool-cases (q.finding_id == x.finding_id)) [
  | inl y ↦ cc (rw (y, get_review_request) at h)
  | inr y ↦
      let differs : (x.finding_id == q.finding_id) ≡ false = ground arith in
      (
        get_review_request-append q.finding_id qs x ∙ rw (u.0, differs) refl,
        AtMostOne-append qs x u.1 (rw (y, get_review_request) at h),
      )
]

-- What a step over the table keeps: its uniqueness, the ids of requests, and the decisions.
pub record Extends (before after : ReviewStore) : Type 0 where
  pub unique : AtMostOne before.requests → AtMostOne after.requests
  pub same_id :
      (i : ℕ) (q : ReviewRequest)
      → get_review_request i before.requests ≡ some q
      → (q' : ReviewRequest) × (get_review_request i after.requests ≡ some q') × (q'.id ≡ q.id)
  pub same_decisions : after.decisions ≡ before.decisions

Extends-upsert : (r : ReviewRequest) (s : ReviewStore) → Extends s (upsert_review_request r s)
unfolding upsert_review_request
Extends-upsert r s = elim (Option-cases (get_review_request r.finding_id s.requests)) [
  | inl e ↦
      let x : ReviewRequest = record r { id = s.next_request } in
      rw (e, upsert_review_request)
        (record {
          unique = λ u. AtMostOne-append s.requests x u e;
          same_id = λ i q h. (q, get_review_request-append i s.requests x ∙ rw h refl, refl);
          same_decisions = refl;
        })
  | inr (old, e) ↦
      rw (e, upsert_review_request)
        (record {
          unique = λ u. AtMostOne-update r s.requests u;
          same_id = λ i q h.
              let g = get_review_request-update i r s.requests ∙ ap (refreshed r) h in
              elim (Bool-cases (q.finding_id == r.finding_id)) [
                | inl y ↦ (updated r q, g ∙ rw y refl, refl)
                | inr y ↦ (q, g ∙ rw y refl, refl)
              ];
          same_decisions = refl;
        })
]

upsert_review_request-holds :
    (r : ReviewRequest) (s : ReviewStore)
    → (q : ReviewRequest) × (get_review_request r.finding_id (upsert_review_request r s).requests
        ≡ some q)
unfolding upsert_review_request
upsert_review_request-holds r s = elim (Option-cases (get_review_request r.finding_id s.requests)) [
  | inl e ↦
      let x : ReviewRequest = record r { id = s.next_request } in
      let same : (r.finding_id == r.finding_id) ≡ true = ground arith in
      rw (e, upsert_review_request)
        (x, get_review_request-append r.finding_id s.requests x ∙ rw (e, same) refl)
  | inr (old, e) ↦
      rw (e, upsert_review_request)
        (_, get_review_request-update r.finding_id r s.requests ∙ ap (refreshed r) e)
]

pub Extends-upsert_each : (rs : List ReviewRequest) (s : ReviewStore) → Extends s (upsert_each rs s)
unfolding upsert_each
Extends-upsert_each [] s = record {
  unique = λ u. u;
  same_id = λ i q h. (q, h, refl);
  same_decisions = refl;
}
Extends-upsert_each (r ∷ rs) s =
    let a = Extends-upsert r s in
    let b = Extends-upsert_each rs (upsert_review_request r s) in
    record {
      unique = λ u. b.unique (a.unique u);
      same_id = λ i q h.
          let (q1, g1, e1) = a.same_id i q h in
          let (q2, g2, e2) = b.same_id i q1 g1 in (q2, g2, e2 ∙ e1);
      same_decisions = b.same_decisions ∙ a.same_decisions;
    }

pub upsert_each-holds :
    (i : ℕ) (rs : List ReviewRequest) (s : ReviewStore)
    → has_key i rs ≡ true
    → (q : ReviewRequest) × (get_review_request i (upsert_each rs s).requests ≡ some q)
unfolding upsert_each
upsert_each-holds i [] s h = cc
upsert_each-holds i (r ∷ rs) s h = elim (Bool-cases (r.finding_id == i)) [
  | inl e ↦
      let same : r.finding_id ≡ i = ground arith in
      let (q, g) =
        subst
          (λ j.
            (q : ReviewRequest) × (get_review_request j (upsert_review_request r s).requests
              ≡ some q))
          same (upsert_review_request-holds r s) in
      let (q', g', _) = (Extends-upsert_each rs (upsert_review_request r s)).same_id i q g in
      (q', g')
  | inr e ↦ upsert_each-holds i rs (upsert_review_request r s) (rw e at h)
]
