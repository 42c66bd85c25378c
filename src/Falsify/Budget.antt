-- ===== src/Falsify/Budget.antt =====
-- The queue and the budget of a falsification run: `pending_falsification_findings`, `_grouped_queue`,
-- `_budget_order`, `_budget_partition` and the budget of `challenge` in
-- src/repoauditor/falsify/challenger.py. Triage results are a function from ids.
use repoauditor.Prelude.{
  ℕ, ◌+◌, ◌-◌, ◌*◌, ◌/◌, Bool, true, false, not, Option, none, some, List, [], ◌∷◌, ◌++◌, map,
  if◌then◌else◌, ◌&&◌, ◌||◌, ltb, leb, ◌==◌, option_eq, is_some, elem, length, filter_by, take,
  drop, min, max,
}
use repoauditor.Prelude.Sort.{sorted}
use repoauditor.Store.{Finding, TriageResult, unresolved, deferred, status_eq}
use repoauditor.Store.Ranks.{severity_rank}
use repoauditor.Matching.Defs.{MatchGroup, find_matches}

abbrev pub Triage : Type 0
Triage = Option ℕ → Option TriageResult

abbrev pub id_eq : Option ℕ → Option ℕ → Bool
id_eq = option_eq ◌==◌

abbrev pub is_pending_status : Finding → Bool
is_pending_status f =
    status_eq f.falsification_status unresolved || status_eq f.falsification_status deferred

-- `pending_falsification_findings`, with the ids that have logged iterations.
unfoldable pub pending_findings : List (Option ℕ) → List Finding → List Finding
pending_findings examined = filter_by (λ f. is_pending_status f && not (elem id_eq f.id examined))

-- `≤` on the keys (0, -p_actionable, rank) and (1, -severity, -confidence).
unfoldable pub budget_le : Triage → Finding → Finding → Bool
budget_le triage a b = elim (triage a.id) [
  | some s ↦ elim (triage b.id) [
    | some t ↦
        ltb t.p_actionable s.p_actionable || (t.p_actionable == s.p_actionable && leb s.rank t.rank)
    | none ↦ true
  ]
  | none ↦ elim (triage b.id) [
    | some t ↦ false
    | none ↦
        ltb (severity_rank b.severity) (severity_rank a.severity)
        || (severity_rank b.severity == severity_rank a.severity && leb b.confidence a.confidence)
  ]
]

unfoldable pub budget_order : Triage → List Finding → List Finding
unfolding budget_le
budget_order triage = sorted (budget_le triage)

abbrev pub is_triaged : Triage → Finding → Bool
is_triaged triage f = is_some (triage f.id)

abbrev pub ids_of : List Finding → List (Option ℕ)
ids_of = map (λ f. f.id)

abbrev pub is_selected : List Finding → Finding → Bool
is_selected selected f = elem id_eq f.id (ids_of selected)

-- The loop that fills the selection from the ordered remainder.
unfoldable pub fill : ℕ → List Finding → List Finding → List Finding
fill budget selected [] = selected
fill budget selected (f ∷ fs) =
    let more = fill budget (if is_selected selected f then selected else selected ++ f ∷ []) fs in
    if leb budget (length selected) then selected else more

abbrev pub reserve_of : ℕ → ℕ → List Finding → ℕ
reserve_of budget min_untriaged untriaged = min (min min_untriaged (length untriaged)) (budget - 1)

abbrev pub is_empty : List Finding → Bool
is_empty [] = true
is_empty (f ∷ fs) = false

unfoldable pub budget_partition : List Finding → Triage → ℕ → ℕ → List Finding × List Finding
unfolding fill
budget_partition pending triage budget min_untriaged =
    let triaged = filter_by (is_triaged triage) pending in
    let untriaged = filter_by (λ f. not (is_triaged triage f)) pending in
    if (ltb budget 2 || min_untriaged == 0) || (is_empty triaged || is_empty untriaged)
    then (take budget pending, drop budget pending)
    else (let reserve = reserve_of budget min_untriaged untriaged in
        let selected =
          fill budget (take (budget - reserve) triaged ++ take reserve untriaged) pending in
        (selected, filter_by (λ f. not (is_selected selected f)) pending))

-- One entry of the queue: a representative and the members of its group.
abbrev pub QueueEntry : Type 0
QueueEntry = Finding × List Finding

abbrev pub chosen_of : Triage → List MatchGroup → List QueueEntry
chosen_of triage [] = []
chosen_of triage (g ∷ gs) =
    let rest = chosen_of triage gs in
    elim (budget_order triage g) [ [] ↦ rest | first ∷ _ ↦ (first, g) ∷ rest ]

-- `members_by_id[id]`; of two entries with one id the later counts.
unfoldable pub members_by_id : List QueueEntry → Option ℕ → Option (List Finding)
members_by_id [] id = none
members_by_id ((r, ms) ∷ es) id = elim (members_by_id es id) [
  | some later ↦ some later
  | none ↦ if id_eq r.id id then some ms else none
]

abbrev pub or_nil : Option (List Finding) → List Finding
or_nil none = []
or_nil (some ms) = ms

unfoldable pub grouped_queue : List Finding → Triage → List QueueEntry
unfolding budget_order members_by_id
grouped_queue pending triage =
    let chosen = chosen_of triage (find_matches pending).groups in
    map (λ r. (r, or_nil (members_by_id chosen r.id))) (budget_order triage (map (λ e. e.0) chosen))

pub record RunSettings : Type 0 where
  pub max_findings_per_run : ℕ
  pub min_untriaged_per_run : ℕ
  pub max_iterations : ℕ
  pub max_retries : ℕ
  pub self_critique : Bool

-- `reserved_calls`: the full envelope of one challenge.
unfoldable pub reserved_calls : RunSettings → ℕ
reserved_calls s = (if s.self_critique then 2 else 1) * max 1 s.max_iterations * (s.max_retries + 1)

-- `budgets` and their minimum; `none` is the empty list of budgets.
unfoldable pub budget_of : RunSettings → Option ℕ → Option ℕ
unfolding reserved_calls
budget_of s none = if s.max_findings_per_run == 0 then none else some s.max_findings_per_run
budget_of s (some remaining) =
    let capacity = remaining / reserved_calls s in
    if s.max_findings_per_run == 0
    then some capacity
    else some (min s.max_findings_per_run capacity)

-- `selected` and `deferred_representatives` of a run.
unfoldable pub select : RunSettings → Option ℕ → Triage → List Finding → List Finding × List Finding
unfolding budget_of budget_partition
select s remaining triage representatives = elim (budget_of s remaining) [
  | none ↦ (representatives, [])
  | some b ↦ budget_partition representatives triage b s.min_untriaged_per_run
]
