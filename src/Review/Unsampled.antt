-- ===== src/Review/Unsampled.antt =====
-- Which requests `raise_review_requests` of src/repoauditor/review/checkpoint.py returns when it is
-- given no run to sample for.
use repoauditor.Prelude.{
  ℕ, ◌≡◌, refl, ◌∙◌, Bool, true, false, String, none, List, [], ◌∷◌, ◌++◌, ◌==◌, filter_by, any,
  subst, ap, arith, inl, inr, Bool-cases, option_eq_iff, ==_iff,
}
use repoauditor.Prelude.Rows.{Holds}
use repoauditor.Review.Tables.{ReviewRequest, ReviewStore, get_review_request, list_review_requests}
use repoauditor.Review.Gate.{AtMostOne}
use repoauditor.Review.Checkpoint.{
  Inputs, ReviewConfig, Digest, has_key, setdefault, add_uncertain, add_unresolved, add_samples,
  keep_sampled, raise_review_requests, run_of, is_of_run,
}
use repoauditor.Review.Raising.{has_key-append}

keep_sampled-Holds :
    (r : ReviewRequest) (ps rs : List ReviewRequest) → Holds r rs → Holds r (keep_sampled ps rs)
keep_sampled-Holds r [] rs m = m
keep_sampled-Holds r (p ∷ ps) rs m = elim (Bool-cases (has_key p.finding_id rs)) [
  | inl e ↦ rw e (keep_sampled-Holds r ps rs m)
  | inr e ↦ rw e (keep_sampled-Holds r ps (rs ++ p ∷ []) (Holds-before r rs (p ∷ []) m))
]
  where
    Holds-before :
        (r : ReviewRequest) (xs ys : List ReviewRequest) → Holds r xs → Holds r (xs ++ ys)
    Holds-before r [] ys m = elim m [ ]
    Holds-before r (x ∷ xs) ys (inl e) = inl e
    Holds-before r (x ∷ xs) ys (inr m) = inr (Holds-before r xs ys m)

Holds-last : (r : ReviewRequest) (xs : List ReviewRequest) → Holds r (xs ++ r ∷ [])
Holds-last r [] = inl refl
Holds-last r (x ∷ xs) = inr (Holds-last r xs)

-- A request after one with another finding is about another finding.
other_finding :
    (id : ℕ) (r : ReviewRequest) (rs : List ReviewRequest)
    → get_review_request id rs ≡ none
    → Holds r rs
    → (id == r.finding_id) ≡ false
unfolding get_review_request
other_finding id r [] h m = elim m [ ]
other_finding id r (q ∷ qs) h m = elim (Bool-cases (q.finding_id == id)) [
  | inl e ↦ cc (rw (e, get_review_request) at h)
  | inr e ↦ elim m [
    | inl same ↦
        let f : r.finding_id ≡ q.finding_id = ap (λ (x : ReviewRequest). x.finding_id) same in
        ground (arith, f, e)
    | inr later ↦ other_finding id r qs (rw (e, get_review_request) at h) later
  ]
]

-- A prior request is kept as it is when its finding is not among the held ones.
keep_sampled_same :
    (r : ReviewRequest) (ps rs : List ReviewRequest)
    → AtMostOne ps
    → Holds r ps
    → has_key r.finding_id rs ≡ false
    → Holds r (keep_sampled ps rs)
keep_sampled_same r [] rs u m e = elim m [ ]
keep_sampled_same r (p ∷ ps) rs u (inl same) e =
    subst (λ x. Holds r (keep_sampled (x ∷ ps) rs)) same
      (rw e (keep_sampled-Holds r ps (rs ++ r ∷ []) (Holds-last r rs)))
keep_sampled_same r (p ∷ ps) rs u (inr m) e =
    let apart = other_finding p.finding_id r ps u.0 m in
    keep_sampled_same r ps (setdefault p rs) u.1 m (elim (Bool-cases (has_key p.finding_id rs)) [
      | inl k ↦ rw k e
      | inr k ↦ rw k (has_key-append r.finding_id rs p ∙ rw (e, apart) refl)
    ])

get_review_request-filter_by :
    (q : ReviewRequest → Bool) (id : ℕ) (rs : List ReviewRequest)
    → get_review_request id rs ≡ none
    → get_review_request id (filter_by q rs) ≡ none
unfolding get_review_request
get_review_request-filter_by q id [] h = refl
get_review_request-filter_by q id (r ∷ rs) h = elim (Bool-cases (r.finding_id == id)) [
  | inl e ↦ cc (rw (e, get_review_request) at h)
  | inr e ↦
      let ih = get_review_request-filter_by q id rs (rw (e, get_review_request) at h) in
      elim (Bool-cases (q r)) [ inl y ↦ rw (y, e, get_review_request) ih | inr y ↦ rw y ih ]
]

AtMostOne-filter_by :
    (q : ReviewRequest → Bool) (rs : List ReviewRequest) → AtMostOne rs → AtMostOne (filter_by q rs)
AtMostOne-filter_by q [] u = tt
AtMostOne-filter_by q (r ∷ rs) u = elim (Bool-cases (q r)) [
  | inl y ↦ rw y (get_review_request-filter_by q r.finding_id rs u.0, AtMostOne-filter_by q rs u.1)
  | inr y ↦ rw y (AtMostOne-filter_by q rs u.1)
]

Holds-filter_by :
    (q : ReviewRequest → Bool) (r : ReviewRequest) (rs : List ReviewRequest)
    → q r ≡ true
    → Holds r rs
    → Holds r (filter_by q rs) × (any q rs ≡ true)
Holds-filter_by q r [] y m = elim m [ ]
Holds-filter_by q r (x ∷ xs) y (inl same) =
    let y' : q x ≡ true = subst (λ z. q z ≡ true) same y in rw y' (inl same, refl)
Holds-filter_by q r (x ∷ xs) y (inr m) =
    let (i, found) = Holds-filter_by q r xs y m in
    elim (Bool-cases (q x)) [ inl e ↦ rw e (inr i, refl) | inr e ↦ rw e (i, found) ]

-- When the run is not one of the pipeline, a request of the repository that carries no sampling
-- run is itself returned again, although nothing of the triage or the falsification holds a request
-- for its finding, each finding having one request at most.
pub raise_review_requests_without_run :
    (h : Digest) (w : Inputs) (c : ReviewConfig) (repo : String) (s : ReviewStore)
    (r : ReviewRequest)
    → AtMostOne s.requests
    → Holds r (list_review_requests repo s.requests)
    → run_of r ≡ none
    → has_key r.finding_id (add_unresolved w w.findings (add_uncertain w c w.triage_results []))
      ≡ false
    → Holds r (raise_review_requests h w c repo none s).0
unfolding raise_review_requests add_samples list_review_requests
raise_review_requests_without_run h w c repo s r u m e free =
    let prior = list_review_requests repo s.requests in
    let of_run : is_of_run none r ≡ true = (option_eq_iff ◌==◌ ==_iff (run_of r) none).1 e in
    let (kept, found) = Holds-filter_by (is_of_run none) r prior of_run m in
    let held = add_unresolved w w.findings (add_uncertain w c w.triage_results []) in
    let unique : AtMostOne (filter_by (is_of_run none) prior) =
      AtMostOne-filter_by (is_of_run none) prior (AtMostOne-filter_by _ s.requests u) in
    rw (found, raise_review_requests, add_samples)
      (keep_sampled_same r (filter_by (is_of_run none) prior) held unique kept free)
