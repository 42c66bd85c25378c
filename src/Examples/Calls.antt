-- ===== src/Examples/Calls.antt =====
-- A call whose first answer does not validate, and one with no calls left.
use repoauditor.Prelude.{
  ℕ, ◌+◌, ◌≡◌, ◌≢◌, refl, ◌≤◌, max, true, String, none, some, [], ◌∷◌, ◌==◌, if◌then◌else◌,
}
use repoauditor.Llm.Client.{
  answer, Backend, LlmStore, LlmConfig, calls_of, remaining_pipeline_call_capacity, call_budget,
  Request, valid, invalid, Schema, budget_exceeded, call, ModelUsage,
}
use repoauditor.Llm.Ceilings.{Ended, call-Ended, call-Within, call-remaining_pipeline_call_capacity}

abbrev backend : Backend
backend = record {
  tracks_usage = true;
  complete = λ n prompt. answer (if n == 0 then "?" else "5");
  last_usage = λ n. none;
}

abbrev schema : Schema ℕ
schema = record {
  validate = λ raw. elim raw [ String.[] ↦ invalid "empty" | String.◌∷◌ c s ↦ valid 5 ];
  confidence = λ v. some 400000;
}

abbrev limits : LlmConfig
limits = record {
  confidence_threshold = 500000;
  max_retries = 2;
  max_calls_per_pipeline_run = 3;
  max_tokens_per_pipeline_run = 0;
}

abbrev request : Request
request = record {
  module_name = "falsify";
  prompt_version = "v1";
  pipeline_run_id = some 9;
  user = "Challenge the finding.";
}

abbrev store : LlmStore
store = record { usages = []; failures = []; requests = 0 }

call-Ended_example :
    ((call schema limits backend request store).1.requests ≤ 0 + (2 + 1))
    × Ended schema limits backend request
        (2 + 1)
        store
        (call schema limits backend request store).0
        (call schema limits backend request store).1
call-Ended_example = call-Ended schema limits backend request store

ceiling_set : limits.max_calls_per_pipeline_run ≢ 0
ceiling_set h = cc

call-Within_example :
    calls_of 9 (call schema limits backend request store).1 ≤ max (calls_of 9 store) 3
call-Within_example = call-Within schema limits backend request 9 store refl refl ceiling_set

abbrev used : ModelUsage
used = record { pipeline_run_id = some 9; module_name = "map"; prompt_version = "v1"; usage = none }

abbrev spent : LlmStore
spent = record { usages = used ∷ used ∷ used ∷ []; failures = []; requests = 3 }

nothing_left : remaining_pipeline_call_capacity limits (some 9) spent ≡ some 0
unfolding remaining_pipeline_call_capacity
nothing_left = refl

call-remaining_pipeline_call_capacity_example :
    call schema limits backend request spent ≡ (budget_exceeded call_budget, spent)
call-remaining_pipeline_call_capacity_example =
    call-remaining_pipeline_call_capacity schema limits backend request spent nothing_left
