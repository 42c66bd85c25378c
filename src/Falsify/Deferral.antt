-- ===== src/Falsify/Deferral.antt =====
-- What a bounded run does not select it defers: no pending issue is dropped.
use repoauditor.Prelude.{
  ℕ, ◌-◌, ◌≡◌, refl, sym, ap, ◌∙◌, subst, true, not, Option, List, [], ◌∷◌, ◌++◌, ◌||◌, ◌==◌,
  ==_iff, option_eq_iff, filter_by, take, drop, take-append-drop, All, All-map, inl, inr,
  Bool-cases,
}
use repoauditor.Store.{Finding}
use repoauditor.Falsify.Budget.{
  Triage, id_eq, is_triaged, is_selected, fill, reserve_of, budget_partition,
}
use repoauditor.Falsify.Fairness.{is_plain}

id_eq-same : (id : Option ℕ) → id_eq id id ≡ true
id_eq-same id = (option_eq_iff ◌==◌ ==_iff id id).1 refl

is_selected-append :
    (xs ys : List Finding) (f : Finding)
    → is_selected (xs ++ ys) f ≡ (is_selected xs f || is_selected ys f)
is_selected-append [] ys f = refl
is_selected-append (x ∷ xs) ys f = elim (Bool-cases (id_eq f.id x.id)) [
  | inl e ↦ rw e refl
  | inr e ↦ rw e (is_selected-append xs ys f)
]

is_selected_refl : (xs : List Finding) → All (λ f. is_selected xs f ≡ true) xs
is_selected_refl [] = tt
is_selected_refl (x ∷ xs) = (
  rw (id_eq-same x.id) refl,
  All-map (λ f h. elim (Bool-cases (id_eq f.id x.id)) [ inl e ↦ rw e refl | inr e ↦ rw e h ]) xs
      (is_selected_refl xs),
)

-- A finding is selected, or the filter that makes the deferred list keeps it.
rest_deferred :
    (chosen fs : List Finding)
    → All
        (λ f.
          (is_selected chosen f || is_selected (filter_by (λ g. not (is_selected chosen g)) fs) f)
          ≡ true)
        fs
rest_deferred chosen [] = tt
rest_deferred chosen (x ∷ xs) =
    let kept = filter_by (λ g. not (is_selected chosen g)) xs in
    let Held : List Finding → Type 0 =
      λ l. All (λ f. (is_selected chosen f || is_selected l f) ≡ true) (x ∷ xs) in
    elim (Bool-cases (is_selected chosen x)) [
      | inl e ↦
          let step : kept ≡ filter_by (λ g. not (is_selected chosen g)) (x ∷ xs) = rw e refl in
          subst Held step (rw e refl, rest_deferred chosen xs)
      | inr e ↦
          let step : x ∷ kept ≡ filter_by (λ g. not (is_selected chosen g)) (x ∷ xs) = rw e refl in
          subst Held step (
            rw (e, id_eq-same x.id) refl,
            All-map
                (λ f h. elim (Bool-cases (is_selected chosen f)) [
                  | inl y ↦ rw y refl
                  | inr y ↦ elim (Bool-cases (id_eq f.id x.id)) [
                    | inl z ↦ rw (y, z) refl
                    | inr z ↦ rw (y, z) (rw y at h)
                  ]
                ])
                xs (rest_deferred chosen xs),
          )
    ]

-- Each pending issue is selected or deferred, by its id.
pub budget_partition-is_selected :
    (pending : List Finding) (triage : Triage) (budget min_untriaged : ℕ)
    → All
        (λ f.
          (is_selected (budget_partition pending triage budget min_untriaged).0 f
            || is_selected (budget_partition pending triage budget min_untriaged).1 f)
          ≡ true)
        pending
unfolding budget_partition
budget_partition-is_selected pending triage budget min_untriaged =
    let Covered : List Finding × List Finding → Type 0 =
      λ p. All (λ f. (is_selected p.0 f || is_selected p.1 f) ≡ true) pending in
    let triaged = filter_by (is_triaged triage) pending in
    let untriaged = filter_by (λ f. not (is_triaged triage f)) pending in
    let reserve = reserve_of budget min_untriaged untriaged in
    elim (Bool-cases (is_plain pending triage budget min_untriaged)) [
      | inl e ↦
          let step : (take budget pending, drop budget pending)
              ≡ budget_partition pending triage budget min_untriaged =
            rw (e, budget_partition) refl in
          subst Covered step (
            All-map
              (λ f h.
                sym (is_selected-append (take budget pending) (drop budget pending) f)
                ∙ ap (λ xs. is_selected xs f) (take-append-drop budget pending)
                ∙ h)
              pending (is_selected_refl pending))
      | inr e ↦
          let chosen =
            fill budget (take (budget - reserve) triaged ++ take reserve untriaged) pending in
          let step : (chosen, filter_by (λ f. not (is_selected chosen f)) pending)
              ≡ budget_partition pending triage budget min_untriaged =
            rw (e, budget_partition) refl in
          subst Covered step (rest_deferred chosen pending)
    ]
