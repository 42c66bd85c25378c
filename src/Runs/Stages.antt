-- ===== src/Runs/Stages.antt =====
-- Starting and ending a stage of a run in src/repoauditor/store/db.py, read back.
use repoauditor.Prelude.{
  ℕ, suc, ◌≡◌, ◌≢◌, refl, sym, ap, ◌∙◌, subst, true, false, String, Option, none, some, List, [],
  ◌∷◌, ◌++◌, ◌==◌, str_eq, str_eq_iff, ◌⊎◌, arith, inl, inr, Bool-cases, Option-cases,
}
use repoauditor.Prelude.Rows.{
  first_where, first_where-update, first_where-append, first_where-passes, changed, or_else,
  All-trivial,
}
use repoauditor.Runs.Tables.{
  StageRun, RunStore, Ending, is_stage, get_stage_run, start_stage_run, finish_stage_run,
  ended_stage, restarted, new_stage, update_stage, get_pipeline_run,
}

-- A change of a stage's row that keeps what it is found by.
record KeepsStage (f : StageRun → StageRun) : Type 0 where
  same :
      (run_id : ℕ) (stage : String) (r : StageRun)
      → is_stage run_id stage (f r) ≡ is_stage run_id stage r

get_stage_run-update :
    (f : StageRun → StageRun) (k : KeepsStage f) (i j : ℕ) (a b : String) (rs : List StageRun)
    → get_stage_run i a (update_stage j b f rs) ≡ changed (is_stage j b) f (get_stage_run i a rs)
unfolding get_stage_run
get_stage_run-update f k i j a b rs =
    first_where-update (is_stage i a) (is_stage j b) f (k.same i a) rs

keeps_restarted : (now : String) → KeepsStage (restarted now)
keeps_restarted now = record { same = λ i a r. refl }

keeps_ended : (e : Ending) → KeepsStage (ended_stage e)
keeps_ended e = record { same = λ i a r. refl }

found_stage :
    (i : ℕ) (a : String) (rs : List StageRun) (r : StageRun)
    → get_stage_run i a rs ≡ some r
    → is_stage i a r ≡ true
unfolding get_stage_run
found_stage i a rs r h = (first_where-passes (λ q. Unit) (is_stage i a) rs r h (All-trivial rs)).1

restarted_new :
    (i : ℕ) (a now : String) (r : StageRun)
    → is_stage i a r ≡ true
    → restarted now r ≡ new_stage r.id i a now
restarted_new i a now r h =
    let e : r.pipeline_run_id ≡ i = ground arith in
    let e' : r.stage ≡ a = (str_eq_iff r.stage a).0 (ground arith) in
    λ k. record (restarted now r) { pipeline_run_id = e k; stage = e' k }

-- Two stages that differ are told apart.
stage_differs :
    (i j : ℕ) (a b : String) (r : StageRun)
    → (i ≢ j) ⊎ (a ≢ b)
    → is_stage i a r ≡ true
    → is_stage j b r ≡ false
stage_differs i j a b r d h = elim (Bool-cases (is_stage j b r)) [
  | inr e ↦ e
  | inl e ↦
      let x : r.pipeline_run_id ≡ i = ground arith in
      let y : r.pipeline_run_id ≡ j = ground arith in
      let x' : r.stage ≡ a = (str_eq_iff r.stage a).0 (ground arith) in
      let y' : r.stage ≡ b = (str_eq_iff r.stage b).0 (ground arith) in
      elim d [ inl n ↦ absurd (n (sym x ∙ y)) | inr n ↦ absurd (n (sym x' ∙ y')) ]
]

-- What starting a stage leaves in the table: a fresh row for it, and the other rows as they were.
record Restarted (i : ℕ) (a now : String) (before after : List StageRun) : Type 0 where
  row : ℕ
  fresh : get_stage_run i a after ≡ some (new_stage row i a now)
  others :
      (j : ℕ) (b : String) → (i ≢ j) ⊎ (a ≢ b) → get_stage_run j b after ≡ get_stage_run j b before

others_changed :
    (f : StageRun → StageRun) (i j : ℕ) (a b : String) (rs : List StageRun)
    → (i ≢ j) ⊎ (a ≢ b)
    → changed (is_stage i a) f (get_stage_run j b rs) ≡ get_stage_run j b rs
others_changed f i j a b rs d = elim (Option-cases (get_stage_run j b rs)) [
  | inl e ↦ rw e refl
  | inr (r, e) ↦
      let other = stage_differs j i b a r (flip d) (found_stage j b rs r e) in rw e (rw other refl)
]
  where
    flip : (i ≢ j) ⊎ (a ≢ b) → (j ≢ i) ⊎ (b ≢ a)
    flip (inl n) = inl (λ e. n (sym e))
    flip (inr n) = inr (λ e. n (sym e))

is_stage-new_stage : (i n : ℕ) (a now : String) → is_stage i a (new_stage n i a now) ≡ true
is_stage-new_stage i n a now =
    let e : str_eq a a ≡ true = (str_eq_iff a a).1 refl in
    let e' : (i == i) ≡ true = ground arith in rw (e, e') refl

Restarted-update :
    (i : ℕ) (a now : String) (rs : List StageRun) (q : StageRun)
    → get_stage_run i a rs ≡ some q
    → Restarted i a now rs (update_stage i a (restarted now) rs)
Restarted-update i a now rs q y =
    let found = found_stage i a rs q y in
    record {
      row = q.id;
      fresh =
          get_stage_run-update (restarted now) (keeps_restarted now) i i a a rs
          ∙ ap (changed (is_stage i a) (restarted now)) y
          ∙ rw found (ap (λ r. some r) (restarted_new i a now q found));
      others = λ j b d.
          get_stage_run-update (restarted now) (keeps_restarted now) j i b a rs
          ∙ others_changed (restarted now) i j a b rs d;
    }

or_else-none : (o : Option StageRun) → or_else o none ≡ o
or_else-none none = refl
or_else-none (some r) = refl

Restarted-append :
    (i : ℕ) (a now : String) (n : ℕ) (rs : List StageRun)
    → get_stage_run i a rs ≡ none
    → Restarted i a now rs (rs ++ new_stage n i a now ∷ [])
unfolding get_stage_run
Restarted-append i a now n rs y =
    let row = new_stage n i a now in
    let own : is_stage i a row ≡ true = is_stage-new_stage i n a now in
    record {
      row = n;
      fresh =
          first_where-append (is_stage i a) rs (row ∷ [])
          ∙ ap (λ o. or_else o (first_where (is_stage i a) (row ∷ []))) y
          ∙ rw own refl;
      others = λ j b d.
          let other = stage_differs i j a b row d own in
          first_where-append (is_stage j b) rs (row ∷ [])
          ∙ rw other (or_else-none (get_stage_run j b rs));
    }

refusal :
    (i : ℕ) (a now : String) (s : RunStore)
    → get_pipeline_run i s.runs ≡ none
    → start_stage_run i a now s ≡ none
unfolding start_stage_run
refusal i a now s m = rw (m, start_stage_run) refl

refused :
    (i : ℕ) (a now : String) (s : RunStore)
    → start_stage_run i a now s ≡ none
    → get_pipeline_run i s.runs ≡ none
unfolding start_stage_run
refused i a now s h = elim (Option-cases (get_pipeline_run i s.runs)) [
  | inl e ↦ e
  | inr (r, e) ↦ elim (Option-cases (get_stage_run i a s.stages)) [
    | inl y ↦ cc (rw (e, y, start_stage_run) at h)
    | inr (q, y) ↦ cc (rw (e, y, start_stage_run) at h)
  ]
]

start_stage_run-Restarted :
    (i : ℕ) (a now : String) (s t : RunStore)
    → start_stage_run i a now s ≡ some t
    → Restarted i a now s.stages t.stages
unfolding start_stage_run
start_stage_run-Restarted i a now s t h = elim (Option-cases (get_pipeline_run i s.runs)) [
  | inl e ↦ cc (rw (e, start_stage_run) at h)
  | inr (r, e) ↦ elim (Option-cases (get_stage_run i a s.stages)) [
    | inl y ↦
        let row = new_stage s.next_stage i a now in
        let made : some (record s { stages = s.stages ++ row ∷ []; next_stage = suc s.next_stage })
            ≡ some t =
          rw (e, y, start_stage_run) at h in
        let same : s.stages ++ row ∷ [] ≡ t.stages = cc made in
        subst (λ rs. Restarted i a now s.stages rs) same
          (Restarted-append i a now s.next_stage s.stages y)
    | inr (q, y) ↦
        let made : some (record s { stages = update_stage i a (restarted now) s.stages }) ≡ some t =
          rw (e, y, start_stage_run) at h in
        let same : update_stage i a (restarted now) s.stages ≡ t.stages = cc made in
        subst (λ rs. Restarted i a now s.stages rs) same (Restarted-update i a now s.stages q y)
  ]
]

-- What the calls of a stage's start and end leave to read.
abbrev pub Attempt : ℕ → String → String → Ending → RunStore → Option RunStore → Type 0
Attempt i a now e s none = get_pipeline_run i s.runs ≡ none
Attempt i a now e s (some t) =
    (get_pipeline_run i s.runs ≢ none)
    × (row : ℕ) × (get_stage_run i a t.stages ≡ some (new_stage row i a now))
    × (get_stage_run i a (finish_stage_run i a e t).stages
        ≡ some (ended_stage e (new_stage row i a now)))
    × ((j : ℕ) (b : String)
        → (i ≢ j) ⊎ (a ≢ b)
        → get_stage_run j b (finish_stage_run i a e t).stages ≡ get_stage_run j b s.stages)

-- A stage starts exactly if its run is a row. It is then read as running with nothing kept of an
-- earlier attempt, and once it ends as what it ended with; other stages are read as before.
pub start_stage_run-finish_stage_run :
    (i : ℕ) (a now : String) (e : Ending) (s : RunStore)
    → Attempt i a now e s (start_stage_run i a now s)
unfolding finish_stage_run
start_stage_run-finish_stage_run i a now e s = attempt (start_stage_run i a now s) refl
  where
    attempt : (o : Option RunStore) → start_stage_run i a now s ≡ o → Attempt i a now e s o
    attempt none h = refused i a now s h
    attempt (some t) h =
        let r = start_stage_run-Restarted i a now s t h in
        let own : is_stage i a (new_stage r.row i a now) ≡ true =
          is_stage-new_stage i r.row a now in
        (
          λ m. cc (refusal i a now s m, h),
          r.row,
          r.fresh,
          get_stage_run-update (ended_stage e) (keeps_ended e) i i a a t.stages
              ∙ ap (changed (is_stage i a) (ended_stage e)) r.fresh
              ∙ rw own refl,
          λ j b d.
              get_stage_run-update (ended_stage e) (keeps_ended e) j i b a t.stages
              ∙ others_changed (ended_stage e) i j a b t.stages d
              ∙ r.others j b d,
        )
