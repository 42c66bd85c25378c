-- ===== src/Falsify/Run.antt =====
-- `challenge` in src/repoauditor/falsify/challenger.py and `update_falsification` in
-- src/repoauditor/store/db.py: the run over the pending findings of a repository. The reason that is
-- written beside a status is not modelled. A run that raises has no outcomes and keeps its writes.
use repoauditor.Prelude.{
  ℕ, ◌==◌, Bool, false, Option, none, some, List, [], ◌∷◌, map, if◌then◌else◌, any,
}
use repoauditor.Store.{Finding, FalsificationStatus, unresolved, deferred}
use repoauditor.Falsify.Loop.{World, Settings, FalsificationOutcome, Log, challenge_finding}
use repoauditor.Falsify.Budget.{
  Triage, QueueEntry, RunSettings, pending_findings, grouped_queue, select, members_by_id, or_nil,
  id_eq,
}

-- `id = ?` of a row and a key; NULL equals nothing.
abbrev pub sql_eq : Option ℕ → Option ℕ → Bool
sql_eq none b = false
sql_eq (some a) none = false
sql_eq (some a) (some b) = a == b

unfoldable pub update_falsification : Option ℕ → FalsificationStatus → List Finding → List Finding
update_falsification id status [] = []
update_falsification id status (row ∷ rows) =
    let rest = update_falsification id status rows in
    (if sql_eq row.id id then record row { falsification_status = status } else row) ∷ rest

pub record RunStore : Type 0 where
  pub rows : List Finding
  pub log : Log

pub record ChallengeConfig : Type 0 where
  pub run : RunSettings
  pub minimum_iterations : ℕ
  pub persist_artifacts : Bool

abbrev pub loop_settings : ChallengeConfig → Settings
loop_settings c = record {
  max_iterations = c.run.max_iterations;
  minimum_iterations = c.minimum_iterations;
  self_critique = c.run.self_critique;
  persist_artifacts = c.persist_artifacts;
}

-- `list_falsification_iterations(id)` is not empty.
abbrev pub has_iterations : Option ℕ → Log → Bool
has_iterations id log = any (λ i. sql_eq (some i.finding_id) id) log

abbrev pub update_each : FalsificationStatus → List Finding → List Finding → List Finding
update_each status [] rows = rows
update_each status (f ∷ fs) rows = update_each status fs (update_falsification f.id status rows)

-- The members of a group but for the representative.
unfoldable pub update_members :
    Option ℕ → FalsificationStatus → List Finding → List Finding → List Finding
unfolding update_falsification
update_members id status [] rows = rows
update_members id status (m ∷ ms) rows =
    update_members id status ms
      (if id_eq m.id id then rows else update_falsification m.id status rows)

abbrev pub members_of : List QueueEntry → Finding → List Finding
members_of queue f = or_nil (members_by_id queue f.id)

-- The loop over `selected`.
unfoldable pub challenge_each :
    (Finding → World)
    → ChallengeConfig
    → List QueueEntry
    → List Finding
    → RunStore
    → Option (List FalsificationOutcome) × RunStore
unfolding update_falsification update_members challenge_finding members_by_id
challenge_each world c queue [] s = (some [], s)
challenge_each world c queue (f ∷ fs) s =
    let (outcome, log) = challenge_finding (world f) (loop_settings c) f.id s.log in
    elim outcome [
      | none ↦ (
        none,
        record {
          rows =
              if has_iterations f.id log
              then update_falsification f.id unresolved s.rows
              else s.rows;
          log = log;
        },
      )
      | some o ↦
          let rows = update_falsification f.id o.status s.rows in
          let (rest, s') =
            challenge_each world c queue fs (record {
              rows = update_members f.id o.status (members_of queue f) rows;
              log = log;
            }) in
          elim rest [ none ↦ (none, s') | some os ↦ (some (o ∷ os), s') ]
    ]

unfoldable pub defer_each : List QueueEntry → List Finding → List Finding → List Finding
unfolding update_falsification members_by_id
defer_each queue [] rows = rows
defer_each queue (f ∷ fs) rows =
    defer_each queue fs (update_each deferred (members_of queue f) rows)

unfoldable pub challenge :
    (Finding → World)
    → ChallengeConfig
    → Option ℕ
    → Triage
    → List (Option ℕ)
    → RunStore
    → Option (List FalsificationOutcome) × RunStore
unfolding pending_findings grouped_queue select challenge_each defer_each
challenge world c remaining triage examined s =
    let queue = grouped_queue (pending_findings examined s.rows) triage in
    let (selected, later) = select c.run remaining triage (map (λ e. e.0) queue) in
    let (outcomes, s') = challenge_each world c queue selected s in
    elim outcomes [
      | none ↦ (none, s')
      | some os ↦ (some os, record s' { rows = defer_each queue later s'.rows })
    ]
