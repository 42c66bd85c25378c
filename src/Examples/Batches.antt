-- ===== src/Examples/Batches.antt =====
-- A scan in two batches, and a table whose parents form a cycle.
use repoauditor.Prelude.{◌≡◌, refl, true, false, none, some, List, [], ◌∷◌, filter_by}
use repoauditor.Runs.Tables.{
  PipelineRun, RunStore, empty_store, Ending, new_run, start_pipeline_run, get_pipeline_run, failed,
  start_stage_run,
}
use repoauditor.Runs.Steps.{Reach, here, next, started, Reach-IsOrdered, IsOrdered}
use repoauditor.Runs.Chain.{list_pipeline_run_chain, Outcome, list_pipeline_run_chain-Outcome}
use repoauditor.Runs.Lineage.{Whole, list_pipeline_run_chain-IsLinked}
use repoauditor.Runs.Usage.{
  ModelUsage, UsageTotals, totals_of, is_of_chain, summarize_model_usage_chain,
  summarize_model_usage_chain_lem,
}
use repoauditor.Runs.Stages.{Attempt, start_stage_run-finish_stage_run}

abbrev batch : PipelineRun
batch = new_run 1 "repo.git" none "2026-01-01 10:00:00"

abbrev continued : PipelineRun
continued = new_run 2 "repo.git" (some 1) "2026-01-01 11:00:00"

abbrev one_batch : RunStore
one_batch = record empty_store { runs = batch ∷ []; next_run = 2 }

abbrev two_batches : RunStore
two_batches = record empty_store { runs = batch ∷ continued ∷ []; next_run = 3 }

starts_first :
    start_pipeline_run "repo.git" none "2026-01-01 10:00:00" empty_store ≡ some (batch, one_batch)
unfolding start_pipeline_run get_pipeline_run
starts_first = refl

starts_second :
    start_pipeline_run "repo.git" (some 1) "2026-01-01 11:00:00" one_batch
    ≡ some (continued, two_batches)
unfolding start_pipeline_run get_pipeline_run
starts_second = refl

reached : Reach empty_store two_batches
reached =
    next (next here (started "repo.git" none "2026-01-01 10:00:00" starts_first))
      (started "repo.git" (some 1) "2026-01-01 11:00:00" starts_second)

Reach-IsOrdered_example : IsOrdered 3 (batch ∷ continued ∷ [])
Reach-IsOrdered_example = Reach-IsOrdered reached

held : get_pipeline_run 2 two_batches.runs ≡ some continued
unfolding get_pipeline_run
held = refl

list_pipeline_run_chain-IsLinked_example : Whole 2 two_batches.runs continued
list_pipeline_run_chain-IsLinked_example = list_pipeline_run_chain-IsLinked 2 continued reached held

abbrev cycle : List PipelineRun
cycle = record batch { parent_run_id = some 2 } ∷ continued ∷ []

list_pipeline_run_chain-Outcome_example : Outcome 2 cycle (list_pipeline_run_chain 2 cycle)
list_pipeline_run_chain-Outcome_example = list_pipeline_run_chain-Outcome 2 cycle

abbrev usages : List ModelUsage
usages =
    record {
      pipeline_run_id = some 1;
      stage = "map";
      usage_available = true;
      input_tokens = some 40;
      output_tokens = some 5;
      cache_read_tokens = none;
      cache_write_tokens = none;
      latency_ms = 9;
    }
    ∷ record {
      pipeline_run_id = some 2;
      stage = "detect";
      usage_available = false;
      input_tokens = none;
      output_tokens = none;
      cache_read_tokens = none;
      cache_write_tokens = none;
      latency_ms = 4;
    }
    ∷ []

abbrev first_totals : UsageTotals
first_totals = record {
  calls = 1;
  input_tokens = 40;
  output_tokens = 5;
  cache_read_tokens = 0;
  cache_write_tokens = 0;
  unknown_usage_calls = 0;
  latency_ms = 9;
}

abbrev second_totals : UsageTotals
second_totals = record {
  calls = 1;
  input_tokens = 0;
  output_tokens = 0;
  cache_read_tokens = 0;
  cache_write_tokens = 0;
  unknown_usage_calls = 1;
  latency_ms = 4;
}

abbrev both_totals : UsageTotals
both_totals = record first_totals { calls = 2; unknown_usage_calls = 1; latency_ms = 13 }

summarized :
    summarize_model_usage_chain 2 two_batches.runs usages
    ≡ some (two_batches.runs, both_totals, first_totals ∷ second_totals ∷ [])
unfolding summarize_model_usage_chain get_pipeline_run
summarized = refl

summarize_model_usage_chain_lem_example :
    both_totals ≡ totals_of (filter_by (is_of_chain two_batches.runs) usages)
summarize_model_usage_chain_lem_example =
    summarize_model_usage_chain_lem 2 two_batches.runs two_batches.runs usages both_totals
      (first_totals ∷ second_totals ∷ []) summarized

abbrev stage_failed : Ending
stage_failed = record {
  status = failed;
  completed_at = "2026-01-01 11:20:00";
  failed_stage = none;
  failure_detail = some "the model did not answer";
  summary = none;
  artifacts = some ("detect.sarif" ∷ []);
}

start_stage_run-finish_stage_run_example :
    Attempt 2 "detect" "2026-01-01 11:10:00" stage_failed two_batches
      (start_stage_run 2 "detect" "2026-01-01 11:10:00" two_batches)
start_stage_run-finish_stage_run_example =
    start_stage_run-finish_stage_run 2 "detect" "2026-01-01 11:10:00" stage_failed two_batches
