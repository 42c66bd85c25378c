-- ===== src/Examples/Challenges.antt =====
-- The challenge loop in a world where the second verdict is a confirmation, and runs over three
-- findings.
use repoauditor.Prelude.{
  ℕ, zero, suc, ◌*◌, ◌-◌, ◌≡◌, refl, ◌≤◌, ◌<◌, ◌⊎◌, true, false, not, ◌&&◌, leb, none, some, [],
  ◌∷◌, filter_by, length, All, min, max, arith,
}
use repoauditor.Store.{FalsificationStatus, confirmed, unresolved}
use repoauditor.Falsify.Witness.{Engine, RegexGuardWitness, verify_counterexample}
use repoauditor.Falsify.Loop.{
  World, Settings, FalsificationOutcome, Round, challenge_finding, clamped, run_round,
  counterexample_upholds, verification_of,
}
use repoauditor.Falsify.Verdicts.{Commits, Passes, challenge_finding_cases, challenge_finding_first}
use repoauditor.Falsify.Budget.{
  Triage, RunSettings, is_triaged, budget_partition, select, reserved_calls, pending_findings,
}
use repoauditor.Falsify.Fairness.{is_plain, count, budget_partition_fair, select_fits}
use repoauditor.Falsify.Deferral.{budget_partition-is_selected}
use repoauditor.Prelude.{◌||◌}
use repoauditor.Falsify.Budget.{is_selected}
use repoauditor.Falsify.Run.{RunStore, ChallengeConfig, sql_eq, challenge}
use repoauditor.Falsify.Untouched.{challenge-Apart}
use repoauditor.Examples.Samples.{by_lens, by_tool, elsewhere, settled, three}

abbrev engine : Engine
engine = record {
  find_guard = λ s. some (record { pattern = s; flags = [] });
  search = λ g s. some false;
  occurs = λ s t. true;
}

abbrev witness : RegexGuardWitness
witness = record { input = "%0a"; control_expression = "/^ok$/" }

abbrev verdict_of : FalsificationStatus → FalsificationOutcome
verdict_of s = record {
  status = s;
  reachable = some true;
  mitigating_control = none;
  confidence = 900000;
  counterexample_witness = none;
}

abbrev world : World
world = record {
  engine = engine;
  evidence = λ k. "return true";
  requires_witness = λ k. false;
  verdict = λ k. some (record {
    value =
        verdict_of (elim k [ zero ↦ unresolved | suc zero ↦ unresolved | suc (suc m) ↦ confirmed ]);
    low_confidence = false;
  });
  critique = λ k v.
      some
        (record { value = record { upholds = true; confidence = 800000 }; low_confidence = false });
}

abbrev settings : Settings
settings = record {
  max_iterations = 3;
  minimum_iterations = 1;
  self_critique = true;
  persist_artifacts = true;
}

returned : (challenge_finding world settings (some 1) []).0 ≡ some (verdict_of confirmed)
unfolding challenge_finding run_round counterexample_upholds verification_of verify_counterexample
returned = refl

challenge_finding_cases_example :
    ((verdict_of confirmed).status ≡ unresolved)
    ⊎ ((k : ℕ) × (1 ≤ k)
        × (k ≤ max 1 settings.max_iterations)
        × (min settings.minimum_iterations (max 1 settings.max_iterations) ≤ k)
        × Commits world settings.self_critique k (verdict_of confirmed))
challenge_finding_cases_example =
    challenge_finding_cases world settings (some 1) [] (verdict_of confirmed) returned

second : (r : Round) × (run_round world (clamped settings).self_critique 2 ≡ some r)
unfolding run_round counterexample_upholds
second = (_, refl)

early_rounds : (k : ℕ) → 1 ≤ k → k < 2 → Passes world (clamped settings) k
unfolding run_round
early_rounds zero a b = absurd (omega arith)
early_rounds (suc zero) a b = (_, refl, refl)
early_rounds (suc (suc k)) a b = absurd (omega arith)

second_commits : (second.0.committed && leb (clamped settings).minimum_iterations 2) ≡ true
unfolding second counterexample_upholds verification_of verify_counterexample
second_commits = refl

challenge_finding_first_example :
    (challenge_finding world settings (some 1) []).0 ≡ some second.0.verdict
challenge_finding_first_example =
    challenge_finding_first world settings (some 1) [] 1 second.0 early_rounds (omega arith)
      second.1 second_commits

abbrev brief : Settings
brief = record settings { max_iterations = 1 }

only_round : (k : ℕ) → 1 ≤ k → k ≤ max 1 brief.max_iterations → Passes world (clamped brief) k
unfolding run_round
only_round zero a b = absurd (omega arith)
only_round (suc zero) a b = (_, refl, refl)
only_round (suc (suc k)) a b = absurd (omega arith)

abbrev triage : Triage
triage none = none
triage (some n) = elim n [
  | zero ↦ none
  | suc zero ↦ none
  | suc (suc m) ↦
      some
        (record { finding_id = suc (suc m); p_actionable = 800000; rank = 1; suppressed = false })
]

both_streams : is_plain three triage 2 1 ≡ false
both_streams = refl

budget_partition_fair_example :
    (min (min 1 (count (λ f. not (is_triaged triage f)) three)) (2 - 1)
      ≤ count (λ f. not (is_triaged triage f)) (budget_partition three triage 2 1).0)
    × (0 < count (λ f. not (is_triaged triage f)) (budget_partition three triage 2 1).0)
    × (0 < count (is_triaged triage) (budget_partition three triage 2 1).0)
    × (min
          (2 - min (min 1 (count (λ f. not (is_triaged triage f)) three)) (2 - 1))
          (count (is_triaged triage) three)
        ≤ count (is_triaged triage) (budget_partition three triage 2 1).0)
budget_partition_fair_example = budget_partition_fair three triage 2 1 both_streams

budget_partition-is_selected_example :
    All
      (λ f.
        (is_selected (budget_partition three triage 2 1).0 f
          || is_selected (budget_partition three triage 2 1).1 f)
        ≡ true)
      three
budget_partition-is_selected_example = budget_partition-is_selected three triage 2 1

abbrev run_settings : RunSettings
run_settings = record {
  max_findings_per_run = 0;
  min_untriaged_per_run = 1;
  max_iterations = 3;
  max_retries = 2;
  self_critique = true;
}

select_fits_example :
    length (select run_settings (some 40) triage three).0 * reserved_calls run_settings ≤ 40
select_fits_example = select_fits run_settings 40 triage three

abbrev store : RunStore
store = record { rows = by_lens ∷ by_tool ∷ elsewhere ∷ settled ∷ []; log = [] }

abbrev config : ChallengeConfig
config = record { run = run_settings; minimum_iterations = 1; persist_artifacts = true }

killed_is_not_pending : All (λ f. sql_eq f.id (some 4) ≡ false) (pending_findings [] store.rows)
unfolding pending_findings
killed_is_not_pending = (refl, (refl, (refl, tt)))

challenge-Apart_example :
    filter_by
      (λ f. sql_eq f.id (some 4))
      (challenge (λ f. world) config (some 40) triage [] store).1.rows
    ≡ filter_by (λ f. sql_eq f.id (some 4)) store.rows
challenge-Apart_example =
    challenge-Apart (λ f. world) config (some 40) triage [] store 4 killed_is_not_pending
