-- ===== src/Runs/Chain.antt =====
-- `list_pipeline_run_chain` of src/repoauditor/store/db.py, and why its walk ends in any table.
use repoauditor.Prelude.{
  ℕ, zero, suc, ◌≤◌, ◌<◌, ◌≡◌, refl, Bool, true, false, not, ◌⊎◌, Option, none, some, List, [], ◌∷◌,
  ◌==◌, if◌then◌else◌, length, filter_by, subst, elem, map, arith, inl, inr, Bool-cases,
  Option-cases, length-filter_by-le,
}
use repoauditor.Runs.Tables.{PipelineRun, get_pipeline_run}

pub data ChainResult : Type 0 where
  linked : List PipelineRun → ChainResult
  invalid_chain : ℕ → ChainResult
  out_of_fuel : ChainResult

-- The loop: `current`, the ids in `seen`, and the runs found so far, the latest in front.
unfoldable pub walk :
    (fuel run_id : ℕ)
    → List PipelineRun
    → Option PipelineRun
    → List ℕ
    → List PipelineRun
    → ChainResult
walk zero run_id rs current seen chain = out_of_fuel
walk (suc fuel) run_id rs none seen chain = linked chain
walk (suc fuel) run_id rs (some r) seen chain =
    let next : ChainResult = elim r.parent_run_id [
      | none ↦ linked (r ∷ chain)
      | some p ↦ walk fuel run_id rs (get_pipeline_run p rs) (r.id ∷ seen) (r ∷ chain)
    ] in
    if elem (λ a b. a == b) r.id seen then invalid_chain run_id else next

unfoldable pub list_pipeline_run_chain : ℕ → List PipelineRun → ChainResult
unfolding walk
list_pipeline_run_chain run_id rs =
    walk (suc (length rs)) run_id rs (get_pipeline_run run_id rs) [] []

-- The rows that the walk has not seen.
abbrev is_unseen : List ℕ → PipelineRun → Bool
is_unseen seen r = not (elem (λ a b. a == b) r.id seen)

unseen-le :
    (i : ℕ) (seen : List ℕ) (rs : List PipelineRun)
    → length (filter_by (is_unseen (i ∷ seen)) rs) ≤ length (filter_by (is_unseen seen) rs)
unseen-le i seen [] = omega arith
unseen-le i seen (r ∷ rs) = elim (Bool-cases (is_unseen seen r)) [
  | inl e ↦ elim (Bool-cases (r.id == i)) [
    | inl y ↦ rw (y, e) (omega (arith, unseen-le i seen rs))
    | inr y ↦ rw (y, e) (omega (arith, unseen-le i seen rs))
  ]
  | inr e ↦ elim (Bool-cases (r.id == i)) [
    | inl y ↦ rw (y, e) (unseen-le i seen rs)
    | inr y ↦ rw (y, e) (unseen-le i seen rs)
  ]
]

-- A row that is found and not yet seen is one less to see.
unseen-lt :
    (i : ℕ) (seen : List ℕ) (rs : List PipelineRun) (r : PipelineRun)
    → get_pipeline_run i rs ≡ some r
    → elem (λ a b. a == b) r.id seen ≡ false
    → length (filter_by (is_unseen (r.id ∷ seen)) rs) < length (filter_by (is_unseen seen) rs)
unfolding get_pipeline_run
unseen-lt i seen [] r h u = cc
unseen-lt i seen (x ∷ rs) r h u = elim (Bool-cases (x.id == i)) [
  | inl y ↦
      let same : some x ≡ some r = rw (y, get_pipeline_run) at h in
      let ids : x.id ≡ r.id = cc same in
      let now : (x.id == r.id) ≡ true = ground arith in
      let fresh : elem (λ a b. a == b) x.id seen ≡ false = rw ids u in
      rw (now, fresh) (omega (arith, unseen-le r.id seen rs))
  | inr y ↦
      let ih = unseen-lt i seen rs r (rw (y, get_pipeline_run) at h) u in
      elim (Bool-cases (elem (λ a b. a == b) x.id seen)) [
        | inl e ↦ elim (Bool-cases (x.id == r.id)) [ inl z ↦ rw (z, e) ih | inr z ↦ rw (z, e) ih ]
        | inr e ↦ elim (Bool-cases (x.id == r.id)) [
          | inl z ↦ rw (z, e) (omega (arith, ih))
          | inr z ↦ rw (z, e) (omega (arith, ih))
        ]
      ]
]

abbrev pub ids : List PipelineRun → List ℕ
ids = map (λ r. r.id)

abbrev pub is_in : ℕ → List ℕ → Bool
is_in = elem (λ a b. a == b)

-- The runs visited from `run_id` on, the latest in front, and the id to visit next.
pub data Walked (run_id : ℕ) (rs : List PipelineRun) : List PipelineRun → Option ℕ → Type 0 where
  start : Walked run_id rs [] (some run_id)
  visit :
      {chain : List PipelineRun} {i : ℕ} (r : PipelineRun)
      → Walked run_id rs chain (some i)
      → get_pipeline_run i rs ≡ some r
      → is_in r.id (ids chain) ≡ false
      → Walked run_id rs (r ∷ chain) r.parent_run_id

-- What an outcome says of the parents: the walk came to a run without a parent or to an id that is
-- no row, or it came to a run for the second time.
abbrev pub Outcome : ℕ → List PipelineRun → ChainResult → Type 0
Outcome run_id rs (linked chain) =
    Walked run_id rs chain none
    ⊎ ((i : ℕ) × Walked run_id rs chain (some i) × (get_pipeline_run i rs ≡ none))
Outcome run_id rs (invalid_chain n) =
    (n ≡ run_id)
    × ((chain : List PipelineRun) × (i : ℕ) × (r : PipelineRun) × Walked run_id rs chain (some i)
        × (get_pipeline_run i rs ≡ some r)
        × (is_in r.id (ids chain) ≡ true))
Outcome run_id rs out_of_fuel = ⊥

walk-Outcome :
    (fuel run_id i : ℕ) (rs chain : List PipelineRun)
    → Walked run_id rs chain (some i)
    → length (filter_by (is_unseen (ids chain)) rs) < fuel
    → Outcome run_id rs (walk fuel run_id rs (get_pipeline_run i rs) (ids chain) chain)
unfolding walk
walk-Outcome zero run_id i rs chain w h = absurd (omega arith)
walk-Outcome (suc fuel) run_id i rs chain w h = elim (Option-cases (get_pipeline_run i rs)) [
  | inl e ↦ rw (e, walk) (inr (i, w, e))
  | inr (r, e) ↦ elim (Bool-cases (is_in r.id (ids chain))) [
    | inl y ↦ rw (e, walk, y) (refl, (chain, i, r, w, e, y))
    | inr y ↦
        let w' = visit r w e y in
        elim (Option-cases r.parent_run_id) [
          | inl z ↦ rw (e, walk, y, z) (inl (subst (λ o. Walked run_id rs (r ∷ chain) o) z w'))
          | inr (p, z) ↦
              rw (e, walk, y, z)
                (walk-Outcome fuel run_id p rs (r ∷ chain)
                  (subst (λ o. Walked run_id rs (r ∷ chain) o) z w')
                  (omega (arith, h, unseen-lt i (ids chain) rs r e y)))
        ]
  ]
]

-- In any table, a cyclic one included, the walk ends with the outcome that the parents have.
pub list_pipeline_run_chain-Outcome :
    (run_id : ℕ) (rs : List PipelineRun) → Outcome run_id rs (list_pipeline_run_chain run_id rs)
unfolding list_pipeline_run_chain
list_pipeline_run_chain-Outcome run_id rs =
    walk-Outcome (suc (length rs)) run_id run_id rs [] start
      (omega (arith, length-filter_by-le (is_unseen []) rs))
