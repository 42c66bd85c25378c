-- ===== src/Llm/Client.antt =====
-- `LLMClient.call` and `remaining_pipeline_call_capacity` of src/repoauditor/llm/client.py with the
-- tables `model_usage` and `validation_failure`. The backend, the schema and the clock are
-- parameters; requests are numbered by how many were made before.
use repoauditor.Prelude.{
  ℕ, zero, suc, ◌+◌, ◌-◌, Bool, false, not, String, Option, none, some, List, [], ◌∷◌, ◌++◌, ◌==◌,
  ltb, leb, ◌&&◌, option_eq, if◌then◌else◌, filter_by, length,
}

abbrev pub concat : String → String → String
concat String.[] t = t
concat (String.◌∷◌ c s) t = String.◌∷◌ c (concat s t)

abbrev pub prefix : ℕ → String → String
prefix zero s = ""
prefix (suc n) String.[] = ""
prefix (suc n) (String.◌∷◌ c s) = String.◌∷◌ c (prefix n s)

-- `_short`.
abbrev pub short : String → String
short = prefix 2000

-- What a backend returns or raises.
pub data Reply : Type 0 where
  answer : (raw : String) → Reply
  backend_error : (message raw : String) (retryable : Bool) → Reply

pub record Usage : Type 0 where
  pub input_tokens : Option ℕ
  pub output_tokens : Option ℕ
  pub cache_read_tokens : Option ℕ
  pub cache_write_tokens : Option ℕ

pub record Backend : Type 0 where
  pub tracks_usage : Bool
  pub complete : ℕ → String → Reply
  pub last_usage : ℕ → Option Usage

pub record ModelUsage : Type 0 where
  pub pipeline_run_id : Option ℕ
  pub module_name : String
  pub prompt_version : String
  pub usage : Option Usage

pub record ValidationFailure : Type 0 where
  pub module_name : String
  pub prompt_version : String
  pub raw_response : String
  pub validation_error : String

-- `requests` counts the calls of the backend, which no table does.
pub record LlmStore : Type 0 where
  pub usages : List ModelUsage
  pub failures : List ValidationFailure
  pub requests : ℕ

pub record LlmConfig : Type 0 where
  pub confidence_threshold : ℕ
  pub max_retries : ℕ
  pub max_calls_per_pipeline_run : ℕ
  pub max_tokens_per_pipeline_run : ℕ

-- The rows of a run, and `summarize_model_usage`: COUNT(*) and the sums, NULL counting nothing.
abbrev pub is_of_run : ℕ → ModelUsage → Bool
is_of_run run u = option_eq ◌==◌ u.pipeline_run_id (some run)

abbrev pub tokens : Option ℕ → ℕ
tokens none = 0
tokens (some n) = n

abbrev pub processed_tokens : List ModelUsage → ℕ
processed_tokens [] = 0
processed_tokens (u ∷ us) =
    elim u.usage [
      | none ↦ 0
      | some t ↦
          tokens t.input_tokens
          + tokens t.output_tokens
          + tokens t.cache_read_tokens
          + tokens t.cache_write_tokens
    ]
    + processed_tokens us

abbrev pub rows_of : ℕ → LlmStore → List ModelUsage
rows_of run s = filter_by (is_of_run run) s.usages

unfoldable pub calls_of : ℕ → LlmStore → ℕ
calls_of run s = length (rows_of run s)

unfoldable pub remaining_pipeline_call_capacity : LlmConfig → Option ℕ → LlmStore → Option ℕ
unfolding calls_of
remaining_pipeline_call_capacity c none s = none
remaining_pipeline_call_capacity c (some run) s =
    if c.max_calls_per_pipeline_run == 0
    then none
    else some (c.max_calls_per_pipeline_run - calls_of run s)

pub data BudgetKind : Type 0 where
  call_budget token_budget : BudgetKind

-- `_check_pipeline_budget`: the budget that is exhausted, if one is.
unfoldable pub exhausted : LlmConfig → Option ℕ → LlmStore → Option BudgetKind
unfolding calls_of
exhausted c none s = none
exhausted c (some run) s =
    if not (c.max_calls_per_pipeline_run == 0) && leb c.max_calls_per_pipeline_run (calls_of run s)
    then some call_budget
    else if not (c.max_tokens_per_pipeline_run == 0)
        && leb c.max_tokens_per_pipeline_run (processed_tokens (rows_of run s))
    then some token_budget
    else none

-- What one call is for: `module`, `prompt_version`, the run in scope and `user`.
pub record Request : Type 0 where
  pub module_name : String
  pub prompt_version : String
  pub pipeline_run_id : Option ℕ
  pub user : String

unfoldable pub record_usage : Backend → Request → LlmStore → LlmStore
record_usage b q s =
    if b.tracks_usage
    then record s {
      usages =
          s.usages
          ++ record {
            pipeline_run_id = q.pipeline_run_id;
            module_name = q.module_name;
            prompt_version = q.prompt_version;
            usage = b.last_usage s.requests;
          }
            ∷ [];
    }
    else s

-- One call of the backend, with the usage that is recorded on both ways out.
unfoldable pub complete : Backend → Request → String → LlmStore → Reply × LlmStore
unfolding record_usage
complete b q prompt s =
    let s' = record_usage b q s in
    (b.complete s.requests prompt, record s' { requests = suc s.requests })

abbrev pub retry_prompt : String → String → String
retry_prompt user error = concat user (
    concat "\n\n[Your previous response was invalid: "
      (concat error "\nReturn ONLY data matching the required schema.]"))

-- `schema.model_validate_json` and `_reported_confidence`.
pub data Validated (T : Type 0) : Type 0 where
  valid : T → Validated T
  invalid : (error : String) → Validated T

pub record Schema (T : Type 0) : Type 0 where
  pub validate : String → Validated T
  pub confidence : T → Option ℕ

pub record Completion (T : Type 0) : Type 0 where
  pub value : T
  pub confidence : Option ℕ
  pub low_confidence : Bool

pub data CallResult (T : Type 0) : Type 0 where
  completed : Completion T → CallResult T
  budget_exceeded : BudgetKind → CallResult T
  backend_failed : (message : String) → CallResult T
  validation_failed : (error : String) → CallResult T

module _ {T : Type 0} (schema : Schema T) (c : LlmConfig) (b : Backend) (q : Request) where
  abbrev pub is_low : Option ℕ → Bool
  is_low none = false
  is_low (some n) = ltb n c.confidence_threshold

  abbrev pub completion_of : T → Completion T
  completion_of v = record {
    value = v;
    confidence = schema.confidence v;
    low_confidence = is_low (schema.confidence v);
  }

  unfoldable pub insert_validation_failure : String → String → LlmStore → LlmStore
  insert_validation_failure error raw s = record s {
    failures =
        s.failures
        ++ record {
          module_name = q.module_name;
          prompt_version = q.prompt_version;
          raw_response = short raw;
          validation_error = error;
        }
          ∷ [];
  }

  -- The loop over `range(max_retries + 1)`, with `left` attempts to come.
  unfoldable pub attempts :
      (left : ℕ) (prompt last_error last_raw : String) → LlmStore → CallResult T × LlmStore
  unfolding exhausted complete insert_validation_failure
  attempts zero prompt last_error last_raw s =
      (validation_failed last_error, insert_validation_failure last_error last_raw s)
  attempts (suc left) prompt last_error last_raw s = elim (exhausted c q.pipeline_run_id s) [
    | some kind ↦ (budget_exceeded kind, s)
    | none ↦ elim (b.complete s.requests prompt) [
      | backend_error message raw retryable ↦
          let s' = (complete b q prompt s).1 in
          let more = attempts left (retry_prompt q.user message) message raw s' in
          if not retryable then (backend_failed message, s') else more
      | answer raw ↦
          let s' = (complete b q prompt s).1 in
          elim (schema.validate raw) [
            | valid v ↦ (completed (completion_of v), s')
            | invalid error ↦ attempts left (retry_prompt q.user (short error)) (short error) raw s'
          ]
    ]
  ]

  unfoldable pub call : LlmStore → CallResult T × LlmStore
  unfolding attempts
  call s = attempts (c.max_retries + 1) q.user "no response" "" s
