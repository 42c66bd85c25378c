-- ===== src/Falsify/Fairness.antt =====
-- What a bounded run selects: never more than its budget, never nothing of either stream.
use repoauditor.Prelude.{
  ℕ, zero, suc, ◌+◌, ◌-◌, ◌*◌, ◌/◌, ◌≤◌, ◌<◌, ◌≡◌, sym, ◌∙◌, Bool, true, false, not, some, List, [],
  ◌∷◌, ◌++◌, ◌||◌, ltb, leb, ◌==◌, length, length-append, length-take, filter_by, take, min, All,
  All-filter_by, append-nil, append_assoc, arith, inl, inr, Bool-cases,
}
use native.Mathlib.Nat.{div-mul-le_self, mul-le-mul_right}
use repoauditor.Store.{Finding}
use repoauditor.Falsify.Budget.{
  Triage, is_triaged, is_selected, fill, reserve_of, is_empty, budget_partition, RunSettings,
  reserved_calls, budget_of, select,
}

length-fill :
    (budget : ℕ) (selected fs : List Finding)
    → length selected ≤ budget
    → length (fill budget selected fs) ≤ budget
unfolding fill
length-fill budget selected [] h = h
length-fill budget selected (f ∷ fs) h = elim (Bool-cases (leb budget (length selected))) [
  | inl full ↦ rw (full, fill) h
  | inr room ↦ elim (Bool-cases (is_selected selected f)) [
    | inl old ↦ rw (room, old, fill) (length-fill budget selected fs h)
    | inr new ↦
        rw (room, new, fill)
          (length-fill budget (selected ++ f ∷ []) fs
            (ground (arith, length-append selected (f ∷ []))))
  ]
]

-- Whether the run does without a reserve for untriaged findings.
abbrev pub is_plain : List Finding → Triage → ℕ → ℕ → Bool
is_plain pending triage budget min_untriaged =
    (ltb budget 2 || min_untriaged == 0)
    || (is_empty (filter_by (is_triaged triage) pending)
        || is_empty (filter_by (λ f. not (is_triaged triage f)) pending))

-- A run selects at most as many issues as its budget.
pub budget_partition_le :
    (pending : List Finding) (triage : Triage) (budget min_untriaged : ℕ)
    → length (budget_partition pending triage budget min_untriaged).0 ≤ budget
unfolding budget_partition
budget_partition_le pending triage budget min_untriaged =
    let triaged = filter_by (is_triaged triage) pending in
    let untriaged = filter_by (λ f. not (is_triaged triage f)) pending in
    let reserve = reserve_of budget min_untriaged untriaged in
    elim (Bool-cases (is_plain pending triage budget min_untriaged)) [
      | inl e ↦ rw (e, budget_partition) (omega (arith, length-take budget pending))
      | inr e ↦
          let room : reserve ≤ budget = omega arith in
          rw (e, budget_partition)
            (length-fill budget (take (budget - reserve) triaged ++ take reserve untriaged) pending
              (omega (
                arith,
                length-append (take (budget - reserve) triaged) (take reserve untriaged),
                length-take (budget - reserve) triaged,
                length-take reserve untriaged,
              )))
    ]

fill-extends :
    (budget : ℕ) (selected fs : List Finding)
    → (rest : List Finding) × (fill budget selected fs ≡ selected ++ rest)
unfolding fill
fill-extends budget selected [] = ([], sym (append-nil selected))
fill-extends budget selected (f ∷ fs) = elim (Bool-cases (leb budget (length selected))) [
  | inl full ↦ rw (full, fill) ([], sym (append-nil selected))
  | inr room ↦ elim (Bool-cases (is_selected selected f)) [
    | inl old ↦ rw (room, old, fill) (fill-extends budget selected fs)
    | inr new ↦
        let (rest, e) = fill-extends budget (selected ++ f ∷ []) fs in
        rw (room, new, fill) (f ∷ rest, e ∙ append_assoc selected (f ∷ []) rest)
  ]
]

abbrev pub count : (Finding → Bool) → List Finding → ℕ
count p xs = length (filter_by p xs)

count-append :
    (p : Finding → Bool) (xs ys : List Finding) → count p (xs ++ ys) ≡ count p xs + count p ys
count-append p [] ys = omega arith
count-append p (x ∷ xs) ys = ground (arith, count-append p xs ys)

count-take :
    (p : Finding → Bool) (k : ℕ) (xs : List Finding)
    → All (λ x. p x ≡ true) xs
    → count p (take k xs) ≡ min k (length xs)
count-take p zero xs h = omega arith
count-take p (suc k) [] h = omega arith
count-take p (suc k) (x ∷ xs) h = rw (h.0) (omega (arith, count-take p k xs h.1))

count-none :
    (p : Finding → Bool) (k : ℕ) (xs : List Finding)
    → All (λ x. p x ≡ true) xs
    → count (λ x. not (p x)) (take k xs) ≡ 0
count-none p zero xs h = omega arith
count-none p (suc k) [] h = omega arith
count-none p (suc k) (x ∷ xs) h = rw (h.0) (count-none p k xs h.1)

length-fill-count :
    (p : Finding → Bool) (budget : ℕ) (selected fs : List Finding)
    → count p selected ≤ count p (fill budget selected fs)
length-fill-count p budget selected fs =
    let (rest, e) = fill-extends budget selected fs in
    rw e (omega (arith, count-append p selected rest))

is_empty_lem : (xs : List Finding) → is_empty xs ≡ false → 0 < length xs
is_empty_lem [] h = cc
is_empty_lem (x ∷ xs) h = omega arith

-- A run with a reserve reserves the least of the minimum, the untriaged findings there are and the
-- budget less one. It selects at least that many untriaged findings, and at least as many triaged
-- ones as fit in the other places or, when there are fewer, all of them; so it selects some of each.
pub budget_partition_fair :
    (pending : List Finding) (triage : Triage) (budget min_untriaged : ℕ)
    → is_plain pending triage budget min_untriaged ≡ false
    → (min (min min_untriaged (count (λ f. not (is_triaged triage f)) pending)) (budget - 1)
        ≤ count
            (λ f. not (is_triaged triage f))
            (budget_partition pending triage budget min_untriaged).0)
      × (0
          < count
              (λ f. not (is_triaged triage f))
              (budget_partition pending triage budget min_untriaged).0)
      × (0 < count (is_triaged triage) (budget_partition pending triage budget min_untriaged).0)
      × (min
            (budget
              - min
                  (min min_untriaged (count (λ f. not (is_triaged triage f)) pending))
                  (budget - 1))
            (count (is_triaged triage) pending)
          ≤ count (is_triaged triage) (budget_partition pending triage budget min_untriaged).0)
unfolding budget_partition
budget_partition_fair pending triage budget min_untriaged e =
    let p : Finding → Bool = is_triaged triage in
    let q : Finding → Bool = λ f. not (is_triaged triage f) in
    let ts = filter_by p pending in
    let us = filter_by q pending in
    let reserve = reserve_of budget min_untriaged us in
    let start = take (budget - reserve) ts ++ take reserve us in
    let u_count : count q (take reserve us) ≡ min reserve (length us) =
      count-take q reserve us (All-filter_by q pending) in
    let t_count : count p (take (budget - reserve) ts) ≡ min (budget - reserve) (length ts) =
      count-take p (budget - reserve) ts (All-filter_by p pending) in
    let t_some : 0 < length ts = is_empty_lem ts (ground arith) in
    let u_some : 0 < length us = is_empty_lem us (ground arith) in
    let big : 2 ≤ budget = ground arith in
    let wanted : 0 < min_untriaged = ground arith in
    let u_all = count-append q (take (budget - reserve) ts) (take reserve us) in
    let t_all = count-append p (take (budget - reserve) ts) (take reserve us) in
    let u_more = length-fill-count q budget start pending in
    let t_more = length-fill-count p budget start pending in
    rw (e, budget_partition)
      (omega (arith, u_count, t_count, t_some, u_some, big, wanted, u_all, t_all, u_more, t_more))

envelope : (n r c : ℕ) → n ≤ r / c → n * c ≤ r
envelope n r c h =
    let a : n * c ≤ (r / c) * c = mul-le-mul_right c h in
    let b : (r / c) * c ≤ r = div-mul-le_self r c in omega (arith, a, b)

-- The full call envelope of the selected issues fits in the calls that remain to the pipeline.
pub select_fits :
    (s : RunSettings) (remaining : ℕ) (triage : Triage) (representatives : List Finding)
    → length (select s (some remaining) triage representatives).0 * reserved_calls s ≤ remaining
unfolding select budget_of
select_fits s remaining triage reps = elim (Bool-cases (s.max_findings_per_run == 0)) [
  | inl e ↦
      let b = remaining / reserved_calls s in
      let h = budget_partition_le reps triage b s.min_untriaged_per_run in
      rw (e, select, budget_of) (envelope _ remaining (reserved_calls s) h)
  | inr e ↦
      let b = min s.max_findings_per_run (remaining / reserved_calls s) in
      let h = budget_partition_le reps triage b s.min_untriaged_per_run in
      rw (e, select, budget_of) (envelope _ remaining (reserved_calls s) (omega (arith, h)))
]
