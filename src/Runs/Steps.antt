-- ===== src/Runs/Steps.antt =====
-- The writers of src/repoauditor/store/db.py as steps of the store, and what every store that they
-- lead to from an empty one has.
use repoauditor.Prelude.{
  ℕ, suc, subst, ◌<◌, ◌≡◌, refl, sym, ap, ◌∙◌, true, String, Option, none, some, List, [], ◌∷◌,
  ◌++◌, ◌==◌, All, All-map, All-append, arith, inl, inr, Bool-cases, Option-cases,
}
use repoauditor.Prelude.Rows.{first_where, first_where-update, first_where-append, changed, or_else}
use repoauditor.Runs.Tables.{
  PipelineRun, RunStore, new_run, empty_store, Ending, get_pipeline_run, admits_parent, update_run,
  start_pipeline_run, update_pipeline_run_identity, finish_pipeline_run, resume_pipeline_run,
  start_stage_run, finish_stage_run, get_stage_run,
}

pub data Step : RunStore → RunStore → Type 0 where
  started :
      {s t : RunStore} {r : PipelineRun} (source : String) (parent : Option ℕ) (now : String)
      → start_pipeline_run source parent now s ≡ some (r, t)
      → Step s t
  identified :
      {s : RunStore} (i : ℕ) (repo_id commit : String)
      → Step s (update_pipeline_run_identity i repo_id commit s)
  finished : {s : RunStore} (i : ℕ) (e : Ending) → Step s (finish_pipeline_run i e s)
  resumed : {s : RunStore} (i : ℕ) → Step s (resume_pipeline_run i s)
  stage_started :
      {s t : RunStore} (i : ℕ) (stage now : String)
      → start_stage_run i stage now s ≡ some t
      → Step s t
  stage_finished :
      {s : RunStore} (i : ℕ) (stage : String) (e : Ending) → Step s (finish_stage_run i stage e s)

pub data Reach (s : RunStore) : RunStore → Type 0 where
  here : Reach s s
  next : {t u : RunStore} → Reach s t → Step t u → Reach s u

-- The parent of a run was started before it.
abbrev pub IsLater : ℕ → Option ℕ → Type 0
IsLater i none = Unit
IsLater i (some p) = p < i

-- Ids are below the next one, and parents are earlier rows.
abbrev pub IsOrdered : ℕ → List PipelineRun → Type 0
IsOrdered n rs =
    All (λ r. r.id < n) rs
    × All (λ r. IsLater r.id r.parent_run_id) rs
    × All (λ r. admits_parent r.parent_run_id rs ≡ true) rs

-- A change of a run that keeps what it is linked by.
record KeepsLinks (f : PipelineRun → PipelineRun) : Type 0 where
  same_id : (r : PipelineRun) → (f r).id ≡ r.id
  same_parent : (r : PipelineRun) → (f r).parent_run_id ≡ r.parent_run_id

get_pipeline_run-update :
    (f : PipelineRun → PipelineRun) (k : KeepsLinks f) (i j : ℕ) (rs : List PipelineRun)
    → get_pipeline_run i (update_run j f rs) ≡ changed (λ r. r.id == j) f (get_pipeline_run i rs)
unfolding get_pipeline_run
get_pipeline_run-update f k i j rs =
    first_where-update (λ r. r.id == i) (λ r. r.id == j) f (λ r. ap (λ n. n == i) (k.same_id r)) rs

get_pipeline_run-append :
    (i : ℕ) (rs : List PipelineRun) (x r : PipelineRun)
    → get_pipeline_run i rs ≡ some r
    → get_pipeline_run i (rs ++ x ∷ []) ≡ some r
unfolding get_pipeline_run
get_pipeline_run-append i rs x r h =
    first_where-append (λ r. r.id == i) rs (x ∷ [])
    ∙ ap (λ o. or_else o (first_where (λ q. q.id == i) (x ∷ []))) h

admits-append :
    (o : Option ℕ) (rs : List PipelineRun) (x : PipelineRun)
    → admits_parent o rs ≡ true
    → admits_parent o (rs ++ x ∷ []) ≡ true
admits-append none rs x h = refl
admits-append (some p) rs x h = elim (Option-cases (get_pipeline_run p rs)) [
  | inl e ↦ cc (rw (e, admits_parent) at h)
  | inr (r, e) ↦ rw (get_pipeline_run-append p rs x r e, admits_parent) refl
]

admits-update :
    (f : PipelineRun → PipelineRun) (k : KeepsLinks f) (j : ℕ) (o : Option ℕ)
    (rs : List PipelineRun)
    → admits_parent o rs ≡ true
    → admits_parent o (update_run j f rs) ≡ true
admits-update f k j none rs h = refl
admits-update f k j (some p) rs h = elim (Option-cases (get_pipeline_run p rs)) [
  | inl e ↦ cc (rw (e, admits_parent) at h)
  | inr (r, e) ↦ rw (get_pipeline_run-update f k p j rs, e, admits_parent) refl
]

-- A predicate on the id and the parent of a run holds of the changed rows.
All-update :
    (P : ℕ → Option ℕ → Type 0) (f : PipelineRun → PipelineRun) (k : KeepsLinks f) (j : ℕ)
    (rs : List PipelineRun)
    → All (λ r. P r.id r.parent_run_id) rs
    → All (λ r. P r.id r.parent_run_id) (update_run j f rs)
All-update P f k j [] h = tt
All-update P f k j (r ∷ rs) h = elim (Bool-cases (r.id == j)) [
  | inl e ↦
      let h' : P (f r).id (f r).parent_run_id =
        subst (λ n. P n (f r).parent_run_id) (sym (k.same_id r))
          (subst (λ o. P r.id o) (sym (k.same_parent r)) h.0) in
      rw e (h', All-update P f k j rs h.1)
  | inr e ↦ rw e (h.0, All-update P f k j rs h.1)
]

IsOrdered-update :
    (f : PipelineRun → PipelineRun) (k : KeepsLinks f) (j n : ℕ) (rs : List PipelineRun)
    → IsOrdered n rs
    → IsOrdered n (update_run j f rs)
IsOrdered-update f k j n rs (a, b, c) = (
  All-update (λ i o. i < n) f k j rs a,
  All-update IsLater f k j rs b,
  All-update (λ i o. admits_parent o (update_run j f rs) ≡ true) f k j rs
      (All-map (λ r h. admits-update f k j r.parent_run_id rs h) rs c),
)

-- A parent that is a row is below the next id.
IsLater-next :
    (n : ℕ) (o : Option ℕ) (rs : List PipelineRun)
    → All (λ r. r.id < n) rs
    → admits_parent o rs ≡ true
    → IsLater n o
unfolding get_pipeline_run
IsLater-next n none rs a h = tt
IsLater-next n (some p) [] a h = cc
IsLater-next n (some p) (r ∷ rs) a h = elim (Bool-cases (r.id == p)) [
  | inl y ↦ let lt = a.0 in ground arith
  | inr y ↦ IsLater-next n (some p) rs a.1 (rw (y, get_pipeline_run, admits_parent) at h)
]

IsOrdered-start :
    (source : String) (parent : Option ℕ) (now : String) (s t : RunStore) (r : PipelineRun)
    → start_pipeline_run source parent now s ≡ some (r, t)
    → IsOrdered s.next_run s.runs
    → IsOrdered t.next_run t.runs
unfolding start_pipeline_run
IsOrdered-start source parent now s t r h (a, b, c) =
    let row = new_run s.next_run source parent now in
    elim (Bool-cases (admits_parent parent s.runs)) [
      | inl e ↦
          let made : some (row, record s { runs = s.runs ++ row ∷ []; next_run = suc s.next_run })
              ≡ some (r, t) =
            rw (e, start_pipeline_run) at h in
          let grown : IsOrdered (suc s.next_run) (s.runs ++ row ∷ []) = (
            All-append (λ q. q.id < suc s.next_run) s.runs (row ∷ [])
                (All-map (λ q l. omega arith) s.runs a) (omega arith, tt),
            All-append (λ q. IsLater q.id q.parent_run_id) s.runs (row ∷ []) b
                (IsLater-next s.next_run parent s.runs a e, tt),
            All-append (λ q. admits_parent q.parent_run_id (s.runs ++ row ∷ []) ≡ true) s.runs
                (row ∷ []) (All-map (λ q l. admits-append q.parent_run_id s.runs row l) s.runs c)
                (admits-append parent s.runs row e, tt),
          ) in
          subst (λ o. WithStore o) made grown
      | inr e ↦ cc (rw (e, start_pipeline_run) at h)
    ]
  where
    WithStore : Option (PipelineRun × RunStore) → Type 0
    WithStore none = Unit
    WithStore (some (q, u)) = IsOrdered u.next_run u.runs

start_stage_run-runs :
    (i : ℕ) (stage now : String) (s t : RunStore)
    → start_stage_run i stage now s ≡ some t
    → (t.runs ≡ s.runs) × (t.next_run ≡ s.next_run)
unfolding start_stage_run
start_stage_run-runs i stage now s t h = elim (Option-cases (get_pipeline_run i s.runs)) [
  | inl e ↦ cc (rw (e, start_stage_run) at h)
  | inr (r, e) ↦ elim (Option-cases (get_stage_run i stage s.stages)) [
    | inl y ↦ let same = rw (e, y, start_stage_run) at h in (cc same, cc same)
    | inr (q, y) ↦ let same = rw (e, y, start_stage_run) at h in (cc same, cc same)
  ]
]

IsOrdered-Step :
    {s t : RunStore} → Step s t → IsOrdered s.next_run s.runs → IsOrdered t.next_run t.runs
unfolding update_pipeline_run_identity finish_pipeline_run resume_pipeline_run finish_stage_run
IsOrdered-Step {s} {t} (started {r} source parent now h) o =
    IsOrdered-start source parent now s t r h o
IsOrdered-Step {s} {t} (identified i repo_id commit) o =
    IsOrdered-update _ (record { same_id = λ r. refl; same_parent = λ r. refl }) i s.next_run s.runs
      o
IsOrdered-Step {s} {t} (finished i e) o =
    IsOrdered-update _ (record { same_id = λ r. refl; same_parent = λ r. refl }) i s.next_run s.runs
      o
IsOrdered-Step {s} {t} (resumed i) o =
    IsOrdered-update _ (record { same_id = λ r. refl; same_parent = λ r. refl }) i s.next_run s.runs
      o
IsOrdered-Step {s} {t} (stage_started i stage now h) o =
    let (a, b) = start_stage_run-runs i stage now s t h in
    subst (λ n. IsOrdered n t.runs) (sym b) (subst (λ l. IsOrdered s.next_run l) (sym a) o)
IsOrdered-Step {s} {t} (stage_finished i stage e) o = o

pub Reach-IsOrdered : {t : RunStore} → Reach empty_store t → IsOrdered t.next_run t.runs
Reach-IsOrdered here = (tt, tt, tt)
Reach-IsOrdered (next r st) = IsOrdered-Step st (Reach-IsOrdered r)
