-- ===== src/Runs/Usage.antt =====
-- The table `model_usage`, `summarize_model_usage` and `summarize_model_usage_chain` of
-- src/repoauditor/store/db.py. A sum leaves the rows without a value out.
use repoauditor.Prelude.{
  ℕ, ◌+◌, ◌≡◌, refl, sym, ap, ◌∙◌, Bool, true, false, String, Option, none, some, List, [], ◌∷◌,
  map, ◌==◌, str_eq, option_eq, ◌&&◌, if◌then◌else◌, filter_by, any, arith, inl, inr, Bool-cases,
  option_eq_iff, ==_iff,
}
use repoauditor.Runs.Tables.{PipelineRun}
use repoauditor.Runs.Chain.{
  ChainResult, linked, invalid_chain, out_of_fuel, list_pipeline_run_chain, Outcome, Walked, start,
  visit, ids, is_in, list_pipeline_run_chain-Outcome,
}

pub record ModelUsage : Type 0 where
  pub pipeline_run_id : Option ℕ
  pub stage : String
  pub usage_available : Bool
  pub input_tokens : Option ℕ
  pub output_tokens : Option ℕ
  pub cache_read_tokens : Option ℕ
  pub cache_write_tokens : Option ℕ
  pub latency_ms : ℕ

pub record UsageTotals : Type 0 where
  pub calls : ℕ
  pub input_tokens : ℕ
  pub output_tokens : ℕ
  pub cache_read_tokens : ℕ
  pub cache_write_tokens : ℕ
  pub unknown_usage_calls : ℕ
  pub latency_ms : ℕ

abbrev pub or_zero : Option ℕ → ℕ
or_zero none = 0
or_zero (some n) = n

-- Python's `sum(f(x) for x in xs)`, and SQL's over rows.
abbrev pub sum_by : {A : Type 0} → (A → ℕ) → List A → ℕ
sum_by f [] = 0
sum_by f (x ∷ xs) = f x + sum_by f xs

-- The selected columns over the rows that a query finds.
abbrev pub totals_of : List ModelUsage → UsageTotals
totals_of us = record {
  calls = sum_by (λ u. 1) us;
  input_tokens = sum_by (λ u. or_zero u.input_tokens) us;
  output_tokens = sum_by (λ u. or_zero u.output_tokens) us;
  cache_read_tokens = sum_by (λ u. or_zero u.cache_read_tokens) us;
  cache_write_tokens = sum_by (λ u. or_zero u.cache_write_tokens) us;
  unknown_usage_calls = sum_by (λ u. if u.usage_available then 0 else 1) us;
  latency_ms = sum_by (λ u. u.latency_ms) us;
}

abbrev pub is_of_run : ℕ → ModelUsage → Bool
is_of_run run_id u = option_eq (λ a b. a == b) u.pipeline_run_id (some run_id)

unfoldable pub list_model_usage : Option ℕ → List ModelUsage → List ModelUsage
list_model_usage none us = us
list_model_usage (some run_id) us = filter_by (is_of_run run_id) us

unfoldable pub summarize_model_usage : ℕ → Option String → List ModelUsage → UsageTotals
summarize_model_usage run_id none us = totals_of (filter_by (is_of_run run_id) us)
summarize_model_usage run_id (some stage) us =
    totals_of (filter_by (λ u. is_of_run run_id u && str_eq u.stage stage) us)

-- `{key: sum(item[key] for item in per_run) for key in keys}`.
abbrev pub sum_totals : List UsageTotals → UsageTotals
sum_totals ts = record {
  calls = sum_by (λ t. t.calls) ts;
  input_tokens = sum_by (λ t. t.input_tokens) ts;
  output_tokens = sum_by (λ t. t.output_tokens) ts;
  cache_read_tokens = sum_by (λ t. t.cache_read_tokens) ts;
  cache_write_tokens = sum_by (λ t. t.cache_write_tokens) ts;
  unknown_usage_calls = sum_by (λ t. t.unknown_usage_calls) ts;
  latency_ms = sum_by (λ t. t.latency_ms) ts;
}

-- The chain, its totals and the totals of each run; none when the chain is refused.
unfoldable pub summarize_model_usage_chain :
    ℕ
    → List PipelineRun
    → List ModelUsage
    → Option (List PipelineRun × UsageTotals × List UsageTotals)
unfolding list_pipeline_run_chain summarize_model_usage
summarize_model_usage_chain run_id rs us = elim (list_pipeline_run_chain run_id rs) [
  | linked chain ↦
      let per_run = map (λ r. summarize_model_usage r.id none us) chain in
      some (chain, sum_totals per_run, per_run)
  | invalid_chain n ↦ none
  | out_of_fuel ↦ none
]

abbrev pub is_of_chain : List PipelineRun → ModelUsage → Bool
is_of_chain chain u = any (λ r. is_of_run r.id u) chain

abbrev IsDistinct : List PipelineRun → Type 0
IsDistinct [] = Unit
IsDistinct (r ∷ chain) = (is_in r.id (ids chain) ≡ false) × IsDistinct chain

Walked-IsDistinct :
    {run_id : ℕ} {rs chain : List PipelineRun} {o : Option ℕ}
    → Walked run_id rs chain o
    → IsDistinct chain
Walked-IsDistinct start = tt
Walked-IsDistinct (visit r w e fresh) = (fresh, Walked-IsDistinct w)

Outcome-IsDistinct :
    (run_id : ℕ) (rs chain : List PipelineRun) → Outcome run_id rs (linked chain) → IsDistinct chain
Outcome-IsDistinct run_id rs chain (inl w) = Walked-IsDistinct w
Outcome-IsDistinct run_id rs chain (inr (i, w, e)) = Walked-IsDistinct w

-- A row of a run is of no other run.
of_other :
    (r : PipelineRun) (u : ModelUsage) (chain : List PipelineRun)
    → is_of_run r.id u ≡ true
    → is_in r.id (ids chain) ≡ false
    → is_of_chain chain u ≡ false
of_other r u [] h d = refl
of_other r u (q ∷ chain) h d =
    let differs : (r.id == q.id) ≡ false = ground arith in
    let mine : u.pipeline_run_id ≡ some r.id =
      (option_eq_iff (λ a b. a == b) ==_iff u.pipeline_run_id (some r.id)).0 h in
    let other : is_of_run q.id u ≡ false = rw mine differs in
    rw other (of_other r u chain h (ground arith))

sum_by-split :
    (f : ModelUsage → ℕ) (r : PipelineRun) (chain : List PipelineRun) (us : List ModelUsage)
    → is_in r.id (ids chain) ≡ false
    → sum_by f (filter_by (is_of_run r.id) us) + sum_by f (filter_by (is_of_chain chain) us)
      ≡ sum_by f (filter_by (is_of_chain (r ∷ chain)) us)
sum_by-split f r chain [] d = refl
sum_by-split f r chain (u ∷ us) d =
    let ih = sum_by-split f r chain us d in
    elim (Bool-cases (is_of_run r.id u)) [
      | inl e ↦ rw (e, of_other r u chain e d) (omega (arith, ih))
      | inr e ↦ elim (Bool-cases (is_of_chain chain u)) [
        | inl y ↦ rw (e, y) (omega (arith, ih))
        | inr y ↦ rw (e, y) ih
      ]
    ]

sum_by-nothing :
    (f : ModelUsage → ℕ) (us : List ModelUsage) → sum_by f (filter_by (is_of_chain []) us) ≡ 0
sum_by-nothing f [] = refl
sum_by-nothing f (u ∷ us) = sum_by-nothing f us

-- The sum of one column over the runs of a chain is that over the rows of the chain.
sum_by-chain :
    (g : UsageTotals → ℕ) (f : ModelUsage → ℕ) (us : List ModelUsage) (chain : List PipelineRun)
    → ((vs : List ModelUsage) → g (totals_of vs) ≡ sum_by f vs)
    → IsDistinct chain
    → sum_by g (map (λ r. summarize_model_usage r.id none us) chain)
      ≡ sum_by f (filter_by (is_of_chain chain) us)
unfolding summarize_model_usage
sum_by-chain g f us [] h d = sym (sum_by-nothing f us)
sum_by-chain g f us (r ∷ chain) h d =
    let mine = h (filter_by (is_of_run r.id) us) in
    let rest = sum_by-chain g f us chain h d.1 in
    omega (arith, mine, rest, sum_by-split f r chain us d.0)

-- No usage is counted twice: the totals of a chain of linked batches are those of the rows that
-- belong to any of its runs.
pub summarize_model_usage_chain_lem :
    (run_id : ℕ) (rs chain : List PipelineRun) (us : List ModelUsage) (totals : UsageTotals)
    (per_run : List UsageTotals)
    → summarize_model_usage_chain run_id rs us ≡ some (chain, totals, per_run)
    → totals ≡ totals_of (filter_by (is_of_chain chain) us)
unfolding summarize_model_usage_chain
summarize_model_usage_chain_lem run_id rs chain us totals per_run h =
    by_result (list_pipeline_run_chain run_id rs) refl (list_pipeline_run_chain-Outcome run_id rs)
  where
    same_totals :
        (found : List PipelineRun)
        → IsDistinct found
        → sum_totals (map (λ r. summarize_model_usage r.id none us) found)
          ≡ totals_of (filter_by (is_of_chain found) us)
    same_totals found d = λ i. record {
      calls = sum_by-chain (λ t. t.calls) (λ u. 1) us found (λ vs. refl) d i;
      input_tokens =
          sum_by-chain (λ t. t.input_tokens) (λ u. or_zero u.input_tokens) us found (λ vs. refl) d
            i;
      output_tokens =
          sum_by-chain (λ t. t.output_tokens) (λ u. or_zero u.output_tokens) us found (λ vs. refl) d
            i;
      cache_read_tokens =
          sum_by-chain (λ t. t.cache_read_tokens) (λ u. or_zero u.cache_read_tokens) us found
            (λ vs. refl) d i;
      cache_write_tokens =
          sum_by-chain (λ t. t.cache_write_tokens) (λ u. or_zero u.cache_write_tokens) us found
            (λ vs. refl) d i;
      unknown_usage_calls =
          sum_by-chain (λ t. t.unknown_usage_calls) (λ u. if u.usage_available then 0 else 1) us
            found (λ vs. refl) d i;
      latency_ms = sum_by-chain (λ t. t.latency_ms) (λ u. u.latency_ms) us found (λ vs. refl) d i;
    }

    by_result :
        (o : ChainResult)
        → list_pipeline_run_chain run_id rs ≡ o
        → Outcome run_id rs o
        → totals ≡ totals_of (filter_by (is_of_chain chain) us)
    by_result (linked found) e w =
        let made : some (
          found,
          sum_totals (map (λ r. summarize_model_usage r.id none us) found),
          map (λ r. summarize_model_usage r.id none us) found,
        )
            ≡ some (chain, totals, per_run) =
          rw (e, summarize_model_usage_chain) at h in
        let t = same_totals found (Outcome-IsDistinct run_id rs found w) in
        let one_chain : found ≡ chain = cc made in
        let one_total : sum_totals (map (λ r. summarize_model_usage r.id none us) found) ≡ totals =
          cc made in
        sym one_total ∙ t ∙ ap (λ c. totals_of (filter_by (is_of_chain c) us)) one_chain
    by_result (invalid_chain n) e w = cc (rw (e, summarize_model_usage_chain) at h)
    by_result out_of_fuel e w = elim w [ ]
