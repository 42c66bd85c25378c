-- ===== src/Review/Raising.antt =====
-- What a run of the checkpoint leaves in the table of requests.
use repoauditor.Prelude.{
  ℕ, ◌≡◌, refl, ◌∙◌, All-map, true, String, Option, none, some, List, [], ◌∷◌, ◌++◌, ◌==◌, ◌||◌,
  filter_by, any, All, subst, arith, inl, inr, Bool-cases, Option-cases, take,
}
use repoauditor.Prelude.Sort.{sorted}
use repoauditor.Store.{Finding, unresolved, status_eq, TriageResult}
use repoauditor.Review.Tables.{ReviewRequest, ReviewStore, get_review_request, list_review_requests}
use repoauditor.Review.Gate.{row_id, AtMostOne}
use repoauditor.Review.Checkpoint.{
  Inputs, ReviewConfig, Digest, put, has_key, setdefault, add_uncertain, add_unresolved,
  add_samples, keep_sampled, put_samples, new_samples, request_for, raise_review_requests,
  unresolved_request, is_of_run, digest_le, sample_candidates, sampled_triage_request,
}
use repoauditor.Review.Upserts.{Extends-upsert_each, upsert_each-holds}

put-has_key :
    (i : ℕ) (r : ReviewRequest) (rs : List ReviewRequest)
    → has_key i (put r rs) ≡ (r.finding_id == i || has_key i rs)
put-has_key i r [] = refl
put-has_key i r (q ∷ qs) = elim (Bool-cases (q.finding_id == r.finding_id)) [
  | inl e ↦ ground arith
  | inr e ↦ rw e (ground (arith, put-has_key i r qs))
]

put-keeps :
    (i : ℕ) (r : ReviewRequest) (rs : List ReviewRequest)
    → has_key i rs ≡ true
    → has_key i (put r rs) ≡ true
put-keeps i r rs h = put-has_key i r rs ∙ ground arith

put-has : (r : ReviewRequest) (rs : List ReviewRequest) → has_key r.finding_id (put r rs) ≡ true
put-has r rs = put-has_key r.finding_id r rs ∙ ground arith

pub has_key-append :
    (i : ℕ) (rs : List ReviewRequest) (x : ReviewRequest)
    → has_key i (rs ++ x ∷ []) ≡ (has_key i rs || x.finding_id == i)
has_key-append i [] x = ground arith
has_key-append i (r ∷ rs) x = ground (arith, has_key-append i rs x)

setdefault-keeps :
    (i : ℕ) (r : ReviewRequest) (rs : List ReviewRequest)
    → has_key i rs ≡ true
    → has_key i (setdefault r rs) ≡ true
setdefault-keeps i r rs h = elim (Bool-cases (has_key r.finding_id rs)) [
  | inl e ↦ rw e h
  | inr e ↦ rw e (has_key-append i rs r ∙ rw h refl)
]

setdefault-has :
    (r : ReviewRequest) (rs : List ReviewRequest) → has_key r.finding_id (setdefault r rs) ≡ true
setdefault-has r rs = elim (Bool-cases (has_key r.finding_id rs)) [
  | inl e ↦ rw e e
  | inr e ↦
      let same : (r.finding_id == r.finding_id) ≡ true = ground arith in
      rw e (has_key-append r.finding_id rs r ∙ rw (e, same) refl)
]

keep_sampled-keeps :
    (i : ℕ) (ps rs : List ReviewRequest)
    → has_key i rs ≡ true
    → has_key i (keep_sampled ps rs) ≡ true
keep_sampled-keeps i [] rs h = h
keep_sampled-keeps i (p ∷ ps) rs h =
    keep_sampled-keeps i ps (setdefault p rs) (setdefault-keeps i p rs h)

put_samples-keeps :
    (w : Inputs) (c : ReviewConfig) (k i : ℕ) (xs : List (TriageResult × Finding))
    (rs : List ReviewRequest)
    → has_key i rs ≡ true
    → has_key i (put_samples w c k xs rs) ≡ true
unfolding put_samples
put_samples-keeps w c k i [] rs h = h
put_samples-keeps w c k i ((t, f) ∷ xs) rs h =
    put_samples-keeps w c k i xs (put (sampled_triage_request w c k t f) rs)
      (put-keeps i (sampled_triage_request w c k t f) rs h)

new_samples-keeps :
    (h : Digest) (w : Inputs) (c : ReviewConfig) (repo : String) (prior rs : List ReviewRequest)
    (run : Option ℕ) (i : ℕ)
    → has_key i rs ≡ true
    → has_key i (new_samples h w c repo prior rs run) ≡ true
unfolding new_samples
new_samples-keeps h w c repo prior rs none i held = held
new_samples-keeps h w c repo prior rs (some k) i held =
    elim (Bool-cases (c.low_rank_sample_size == 0)) [
      | inl z ↦ rw (z, new_samples) held
      | inr z ↦
          rw (z, new_samples)
            (put_samples-keeps w c k i
              (take c.low_rank_sample_size
                (sorted (digest_le h c k repo) (sample_candidates w prior rs w.triage_results)))
              rs held)
    ]

add_samples-keeps :
    (h : Digest) (w : Inputs) (c : ReviewConfig) (repo : String) (run : Option ℕ)
    (prior rs : List ReviewRequest) (i : ℕ)
    → has_key i rs ≡ true
    → has_key i (add_samples h w c repo run prior rs) ≡ true
unfolding add_samples
add_samples-keeps h w c repo run prior rs i held = elim (Bool-cases (any (is_of_run run) prior)) [
  | inl e ↦ rw (e, add_samples) (keep_sampled-keeps i (filter_by (is_of_run run) prior) rs held)
  | inr e ↦ rw (e, add_samples) (new_samples-keeps h w c repo prior rs run i held)
]

unresolved_request-finding_id :
    (w : Inputs) (f : Finding) → (unresolved_request w f).finding_id ≡ row_id f
unfolding unresolved_request request_for
unresolved_request-finding_id w f = elim (Bool-cases (w.iterations f == 0)) [
  | inr e ↦ rw (e, unresolved_request) refl
  | inl e ↦ elim (Option-cases (w.unresolved_debate f)) [
    | inl d ↦ rw (e, d, unresolved_request) refl
    | inr (t, d) ↦ rw (e, d, unresolved_request) refl
  ]
]

add_unresolved-keeps :
    (w : Inputs) (fs : List Finding) (rs : List ReviewRequest) (i : ℕ)
    → has_key i rs ≡ true
    → has_key i (add_unresolved w fs rs) ≡ true
unfolding add_unresolved
add_unresolved-keeps w [] rs i h = h
add_unresolved-keeps w (f ∷ fs) rs i h =
    elim (Bool-cases (status_eq f.falsification_status unresolved)) [
      | inl e ↦
          rw (e, add_unresolved)
            (add_unresolved-keeps w fs _ i (put-keeps i (unresolved_request w f) rs h))
      | inr e ↦ rw (e, add_unresolved) (add_unresolved-keeps w fs rs i h)
    ]

add_unresolved-holds :
    (w : Inputs) (fs : List Finding) (rs : List ReviewRequest)
    → All
        (λ f.
          f.falsification_status ≡ unresolved → has_key (row_id f) (add_unresolved w fs rs) ≡ true)
        fs
unfolding add_unresolved
add_unresolved-holds w [] rs = tt
add_unresolved-holds w (f ∷ fs) rs = (
  λ u.
      let e : status_eq f.falsification_status unresolved ≡ true = rw u refl in
      let id = unresolved_request-finding_id w f in
      rw (e, add_unresolved)
        (add_unresolved-keeps w fs _ (row_id f) (
          subst (λ j. has_key j (put (unresolved_request w f) rs) ≡ true) id
            (put-has (unresolved_request w f) rs))),
  add_unresolved-holds w fs _,
)

-- Each unresolved finding has a request after a run of the checkpoint, whatever is sampled.
pub raise_review_requests_holds :
    (h : Digest) (w : Inputs) (c : ReviewConfig) (repo : String) (run : Option ℕ) (s : ReviewStore)
    → All
        (λ f.
          f.falsification_status ≡ unresolved
          → (q : ReviewRequest) × (get_review_request
                (row_id f)
                (raise_review_requests h w c repo run s).1.requests
              ≡ some q))
        w.findings
unfolding raise_review_requests
raise_review_requests_holds h w c repo run s =
    let rs = add_uncertain w c w.triage_results [] in
    All-map
      (λ f held u. upsert_each-holds (row_id f) _ s (
        add_samples-keeps h w c repo run (list_review_requests repo s.requests)
          (add_unresolved w w.findings rs) (row_id f) (held u)))
      w.findings (add_unresolved-holds w w.findings rs)

-- A run of the checkpoint keeps one request for each finding at most, leaves the decisions as they
-- are, and a finding that had a request keeps one of the same id: no ruling is lost.
pub raise_review_requests_keeps :
    (h : Digest) (w : Inputs) (c : ReviewConfig) (repo : String) (run : Option ℕ) (s : ReviewStore)
    → AtMostOne s.requests
    → AtMostOne (raise_review_requests h w c repo run s).1.requests
      × ((raise_review_requests h w c repo run s).1.decisions ≡ s.decisions)
      × ((i : ℕ) (q : ReviewRequest)
          → get_review_request i s.requests ≡ some q
          → (q' : ReviewRequest) × (get_review_request i
                (raise_review_requests h w c repo run s).1.requests
              ≡ some q')
            × (q'.id ≡ q.id))
unfolding raise_review_requests
raise_review_requests_keeps h w c repo run s u =
    let e = Extends-upsert_each (raise_review_requests h w c repo run s).0 s in
    (e.unique u, e.same_decisions, e.same_id)
