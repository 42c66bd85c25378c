-- ===== src/Falsify/Loop.antt =====
-- `challenge_finding`, `_log_iteration` and `_unresolved` of src/repoauditor/falsify/challenger.py.
-- The evidence of a round, the two model calls and the regex engine are parameters. Rationales and
-- the structural-claim record that precedes the loop are not modelled.
use repoauditor.Prelude.{
  ℕ, zero, suc, Bool, true, false, not, String, Option, none, some, List, [], ◌∷◌, ◌++◌,
  if◌then◌else◌, ◌&&◌, ◌||◌, leb, min, max,
}
use repoauditor.Store.{FalsificationStatus, confirmed, killed, unresolved, status_eq}
use repoauditor.Falsify.Witness.{
  Engine, RegexGuardWitness, WitnessStatus, verified_guard_miss, verify_counterexample,
}

pub record FalsificationOutcome : Type 0 where
  pub status : FalsificationStatus
  pub reachable : Option Bool
  pub mitigating_control : Option String
  pub confidence : ℕ
  pub counterexample_witness : Option RegexGuardWitness

pub record SelfCritique : Type 0 where
  pub upholds : Bool
  pub confidence : ℕ

pub record Completion {ℓ} (A : Type ℓ) : Type ℓ where
  pub value : A
  pub low_confidence : Bool

-- What the loop asks of the outside in the round with a number; `none` is a raised exception.
pub record World : Type 0 where
  pub engine : Engine
  pub evidence : ℕ → String
  pub requires_witness : ℕ → Bool
  pub verdict : ℕ → Option (Completion FalsificationOutcome)
  pub critique : ℕ → FalsificationOutcome → Option (Completion SelfCritique)

pub record FalsificationIteration : Type 0 where
  pub finding_id : ℕ
  pub iteration : ℕ
  pub verdict_status : FalsificationStatus
  pub verdict_confidence : ℕ
  pub critique_upholds : Bool
  pub verification : Option WitnessStatus
  pub committed : Bool

abbrev pub is_terminal : FalsificationStatus → Bool
is_terminal s = status_eq s confirmed || status_eq s killed

abbrev is_verified : Option WitnessStatus → Bool
is_verified none = true
is_verified (some verified_guard_miss) = true
is_verified (some _) = false

unfoldable pub verification_of : World → ℕ → FalsificationOutcome → Option WitnessStatus
verification_of w iteration v =
    verify_counterexample w.engine (w.requires_witness iteration) v.counterexample_witness
      (w.evidence iteration)

-- `counterexample_upholds`.
unfoldable pub counterexample_upholds : World → ℕ → FalsificationOutcome → Bool
counterexample_upholds w iteration v =
    is_verified (verification_of w iteration v) || not (status_eq v.status confirmed)

-- What a round found: the verdict, the critique and whether it commits.
pub record Round : Type 0 where
  pub verdict : FalsificationOutcome
  pub critique : SelfCritique
  pub committed : Bool

abbrev disabled_critique : Completion SelfCritique
disabled_critique = record {
  value = record { upholds = true; confidence = 1000000 };
  low_confidence = false;
}

-- The REFLECT step.
abbrev reflect : World → Bool → ℕ → FalsificationOutcome → Option (Completion SelfCritique)
reflect w self_critique iteration v =
    if self_critique then w.critique iteration v else some disabled_critique

abbrev conclude : World → ℕ → Completion FalsificationOutcome → Completion SelfCritique → Round
conclude w iteration v c = record {
  verdict = v.value;
  critique = c.value;
  committed =
      is_terminal v.value.status
      && (not v.low_confidence
          && (c.value.upholds
              && (not c.low_confidence && counterexample_upholds w iteration v.value)));
}

-- One round up to the point where it is logged.
unfoldable pub run_round : World → Bool → ℕ → Option Round
run_round w self_critique iteration = elim (w.verdict iteration) [
  | none ↦ none
  | some v ↦ elim (reflect w self_critique iteration v.value) [
    | none ↦ none
    | some c ↦ some (conclude w iteration v c)
  ]
]

-- `_log_iteration`, skipped for a finding without an id.
unfoldable pub log_iteration :
    World → Bool → Option ℕ → ℕ → Round → List FalsificationIteration → List FalsificationIteration
log_iteration w persist none iteration r log = log
log_iteration w persist (some id) iteration r log =
    if persist
    then log
      ++ (record {
        finding_id = id;
        iteration = iteration;
        verdict_status = r.verdict.status;
        verdict_confidence = r.verdict.confidence;
        critique_upholds = r.critique.upholds;
        verification = verification_of w iteration r.verdict;
        committed = r.committed;
      }
          ∷ [])
    else log

-- `_unresolved`.
unfoldable pub unresolved_from : Option FalsificationOutcome → FalsificationOutcome
unresolved_from none = record {
  status = unresolved;
  reachable = none;
  mitigating_control = none;
  confidence = 1000000;
  counterexample_witness = none;
}
unresolved_from (some v) = record v { status = unresolved }

pub record Settings : Type 0 where
  pub max_iterations : ℕ
  pub minimum_iterations : ℕ
  pub self_critique : Bool
  pub persist_artifacts : Bool

abbrev pub Log : Type 0
Log = List FalsificationIteration

-- The `for` loop with `left` rounds to go; the log survives a raise.
unfoldable pub rounds :
    World
    → Settings
    → Option ℕ
    → ℕ
    → ℕ
    → Option FalsificationOutcome
    → Log
    → Option FalsificationOutcome × Log
rounds w s id zero iteration last log = (some (unresolved_from last), log)
rounds w s id (suc left) iteration last log = elim (run_round w s.self_critique iteration) [
  | none ↦ (none, log)
  | some r ↦
      let log' = log_iteration w s.persist_artifacts id iteration r log in
      elim (r.committed && leb s.minimum_iterations iteration) [
        | true ↦ (some r.verdict, log')
        | false ↦ rounds w s id left (suc iteration) (some r.verdict) log'
      ]
]

-- The bounds that `challenge_finding` puts on its two iteration counts.
abbrev pub clamped : Settings → Settings
clamped s = record s {
  max_iterations = max 1 s.max_iterations;
  minimum_iterations = max 1 (min s.minimum_iterations (max 1 s.max_iterations));
}

unfoldable pub challenge_finding :
    World → Settings → Option ℕ → Log → Option FalsificationOutcome × Log
unfolding rounds
challenge_finding w s id log = rounds w (clamped s) id (clamped s).max_iterations 1 none log
