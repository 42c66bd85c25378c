-- ===== src/Llm/Ceilings.antt =====
-- How many requests a call may make, what it may spend of the budget of a run, and how it may end.
use repoauditor.Prelude.{
  ℕ, zero, suc, ◌+◌, ◌-◌, ◌≤◌, ◌<◌, ◌≡◌, ◌≢◌, ◌⊎◌, refl, ap, ◌∙◌, Bool, true, false, String, Option,
  none, some, [], ◌∷◌, ◌==◌, leb, ltb, filter_by, length, length-append, max, arith, inl, inr,
  Bool-cases, Option-cases,
}
use repoauditor.Review.Rulings.{filter_by-append}
use repoauditor.Llm.Client.{
  Reply, answer, backend_error, Backend, ModelUsage, LlmStore, LlmConfig, is_of_run, calls_of,
  remaining_pipeline_call_capacity, call_budget, exhausted, Request, record_usage, complete,
  retry_prompt, short, Validated, valid, invalid, Schema, CallResult, completed, budget_exceeded,
  is_low, backend_failed, validation_failed, insert_validation_failure, attempts, call,
}

calls_of-complete :
    (b : Backend) (q : Request) (prompt : String) (s : LlmStore) (run : ℕ)
    → b.tracks_usage ≡ true
    → q.pipeline_run_id ≡ some run
    → calls_of run (complete b q prompt s).1 ≡ suc (calls_of run s)
unfolding calls_of complete record_usage
calls_of-complete b q prompt s run t r =
    let row : ModelUsage = record {
      pipeline_run_id = q.pipeline_run_id;
      module_name = q.module_name;
      prompt_version = q.prompt_version;
      usage = b.last_usage s.requests;
    } in
    let mine : is_of_run run row ≡ true = rw r (ground arith) in
    let e = filter_by-append (is_of_run run) s.usages row in
    rw t
      (rw (e, mine) (omega (arith, length-append (filter_by (is_of_run run) s.usages) (row ∷ []))))

exhausted-none :
    (c : LlmConfig) (run : ℕ) (s : LlmStore)
    → exhausted c (some run) s ≡ none
    → c.max_calls_per_pipeline_run ≢ 0
    → calls_of run s < c.max_calls_per_pipeline_run
unfolding exhausted
exhausted-none c run s h n = ground arith

no_capacity :
    (c : LlmConfig) (run : Option ℕ) (s : LlmStore)
    → remaining_pipeline_call_capacity c run s ≡ some 0
    → exhausted c run s ≡ some call_budget
unfolding remaining_pipeline_call_capacity exhausted
no_capacity c none s h = cc
no_capacity c (some run) s h = elim (Bool-cases (c.max_calls_per_pipeline_run == 0)) [
  | inl e ↦ cc (rw (e, remaining_pipeline_call_capacity) at h)
  | inr e ↦
      let none_left : c.max_calls_per_pipeline_run - calls_of run s ≡ 0 =
        cc (rw (e, remaining_pipeline_call_capacity) at h) in
      let full : leb c.max_calls_per_pipeline_run (calls_of run s) ≡ true =
        ground (arith, none_left) in
      rw (e, full) refl
]

complete-requests :
    (b : Backend) (q : Request) (prompt : String) (s : LlmStore)
    → (complete b q prompt s).1.requests ≡ suc s.requests
unfolding complete
complete-requests b q prompt s = refl

complete-failures :
    (b : Backend) (q : Request) (prompt : String) (s : LlmStore)
    → (complete b q prompt s).1.failures ≡ s.failures
unfolding complete record_usage
complete-failures b q prompt s = elim (Bool-cases b.tracks_usage) [
  | inl e ↦ rw (e, complete, record_usage) refl
  | inr e ↦ rw (e, complete, record_usage) refl
]

-- The calls of the run stay within the ceiling, or where they were if that was above it.
abbrev Within : LlmConfig → ℕ → LlmStore → LlmStore → Type 0
Within c run before after =
    calls_of run after ≤ max (calls_of run before) c.max_calls_per_pipeline_run

-- A confidence was reported, and it is under the threshold.
abbrev pub IsUnder : LlmConfig → Option ℕ → Type 0
IsUnder c confidence = (n : ℕ) × (confidence ≡ some n) × (n < c.confidence_threshold)

-- How a call ended, for each of its results: `left` is the number of attempts it had.
abbrev pub Ended :
    {T : Type 0} (schema : Schema T) (c : LlmConfig) (b : Backend) (q : Request)
    → ℕ
    → LlmStore
    → CallResult T
    → LlmStore
    → Type 0
Ended schema c b q left before (completed v) after =
    (n : ℕ) × (prompt : String) × (raw : String) × (after.requests ≡ suc n)
    × (b.complete n prompt ≡ answer raw)
    × (schema.validate raw ≡ valid v.value)
    × (v.confidence ≡ schema.confidence v.value)
    × ((v.low_confidence ≡ true) × IsUnder c (schema.confidence v.value)
        ⊎ (v.low_confidence ≡ false) × (¬ IsUnder c (schema.confidence v.value)))
    × (after.failures ≡ before.failures)
Ended schema c b q left before (budget_exceeded kind) after =
    (exhausted c q.pipeline_run_id after ≡ some kind) × (after.failures ≡ before.failures)
Ended schema c b q left before (backend_failed message) after =
    (n : ℕ) × (prompt : String) × (raw : String) × (after.requests ≡ suc n)
    × (b.complete n prompt ≡ backend_error message raw false)
    × (after.failures ≡ before.failures)
Ended schema c b q left before (validation_failed error) after =
    (after.requests ≡ before.requests + left)
    × (length after.failures ≡ suc (length before.failures))

Reply-cases :
    (r : Reply)
    → ((raw : String) × (r ≡ answer raw))
      ⊎ ((message : String) × (raw : String) × (again : Bool) × (r
            ≡ backend_error message raw again))
Reply-cases (answer raw) = inl (raw, refl)
Reply-cases (backend_error message raw again) = inr (message, raw, again, refl)

Validated-cases :
    {T : Type 0} (v : Validated T)
    → ((t : T) × (v ≡ valid t)) ⊎ ((error : String) × (v ≡ invalid error))
Validated-cases (valid t) = inl (t, refl)
Validated-cases (invalid error) = inr (error, refl)

module _ {T : Type 0} (schema : Schema T) (c : LlmConfig) (b : Backend) (q : Request) where
  Ended-later :
      (left : ℕ) (s s' after : LlmStore) (r : CallResult T)
      → s'.requests ≡ suc s.requests
      → s'.failures ≡ s.failures
      → Ended schema c b q left s' r after
      → Ended schema c b q (suc left) s r after
  Ended-later left s s' after (completed v) n f (k, p, raw, a, d, e, g, u, h) =
      (k, p, raw, a, d, e, g, u, h ∙ f)
  Ended-later left s s' after (budget_exceeded kind) n f (a, h) = (a, h ∙ f)
  Ended-later left s s' after (backend_failed m) n f (k, p, raw, a, d, h) = (k, p, raw, a, d, h ∙ f)
  Ended-later left s s' after (validation_failed e) n f (a, h) =
      (omega (arith, a, n), h ∙ ap (λ l. suc (length l)) f)

  is_low-IsUnder :
      (o : Option ℕ)
      → (is_low schema c b q o ≡ true) × IsUnder c o
        ⊎ (is_low schema c b q o ≡ false) × (¬ IsUnder c o)
  is_low-IsUnder none = inr (refl, λ (n, e, k). cc)
  is_low-IsUnder (some m) = elim (Bool-cases (ltb m c.confidence_threshold)) [
    | inl e ↦ inl (e, (m, refl, ground (arith, e)))
    | inr e ↦ inr (e, λ (n, f, k). let same : m ≡ n = cc in ground (arith, same, k, e))
  ]

  attempts-Ended :
      (left : ℕ) (prompt error raw : String) (s : LlmStore)
      → (s.requests ≤ (attempts schema c b q left prompt error raw s).1.requests)
        × ((attempts schema c b q left prompt error raw s).1.requests ≤ s.requests + left)
        × Ended schema c b q left s
            (attempts schema c b q left prompt error raw s).0
            (attempts schema c b q left prompt error raw s).1
  unfolding attempts insert_validation_failure
  attempts-Ended zero prompt error raw s =
      (omega arith, omega arith, (omega arith, omega (arith, length-append s.failures _)))
  attempts-Ended (suc left) prompt error raw s =
      let s' = (complete b q prompt s).1 in
      let n = complete-requests b q prompt s in
      let f = complete-failures b q prompt s in
      elim (Option-cases (exhausted c q.pipeline_run_id s)) [
        | inr (kind, e) ↦ rw (e, attempts) (omega arith, omega arith, (e, refl))
        | inl e ↦ elim (Reply-cases (b.complete s.requests prompt)) [
          | inl (text, a) ↦ elim (Validated-cases (schema.validate text)) [
            | inl (t, v) ↦
                rw (e, a, v, attempts)
                  (
                    omega (arith, n),
                    omega (arith, n),
                    (
                      s.requests,
                      prompt,
                      text,
                      n,
                      a,
                      v,
                      refl,
                      is_low-IsUnder (schema.confidence t),
                      f,
                    ),
                  )
            | inr (why, v) ↦
                let (lo, hi, h) =
                  attempts-Ended left (retry_prompt q.user (short why)) (short why) text s' in
                rw (e, a, v, attempts)
                  (omega (arith, n, lo), omega (arith, n, hi), Ended-later left s s' _ _ n f h)
          ]
          | inr (message, text, again, a) ↦ elim (Bool-cases again) [
            | inr y ↦
                rw (e, a, y, attempts)
                  (
                    omega (arith, n),
                    omega (arith, n),
                    (s.requests, prompt, text, n, a ∙ ap (backend_error message text) y, f),
                  )
            | inl y ↦
                let (lo, hi, h) =
                  attempts-Ended left (retry_prompt q.user message) message text s' in
                rw (e, a, y, attempts)
                  (omega (arith, n, lo), omega (arith, n, hi), Ended-later left s s' _ _ n f h)
          ]
        ]
      ]

  -- A call makes at most one request more than the retries it is allowed. It ends with a value that
  -- the last answer validated to, flagged exactly when it has a confidence and that is under the threshold, with
  -- an exhausted budget, or with a backend error that may not be retried, and logs no failure then;
  -- or it made all its requests and logged one failure.
  pub call-Ended :
      (s : LlmStore)
      → ((call schema c b q s).1.requests ≤ s.requests + (c.max_retries + 1))
        × Ended schema c b q (c.max_retries + 1) s (call schema c b q s).0 (call schema c b q s).1
  unfolding call
  call-Ended s =
      let (lo, hi, h) = attempts-Ended (c.max_retries + 1) q.user "no response" "" s in (hi, h)

  attempts-Within :
      (run : ℕ)
      → b.tracks_usage ≡ true
      → q.pipeline_run_id ≡ some run
      → c.max_calls_per_pipeline_run ≢ 0
      → (left : ℕ) (prompt error raw : String) (s : LlmStore)
      → Within c run s (attempts schema c b q left prompt error raw s).1
  unfolding attempts insert_validation_failure
  attempts-Within run t r z zero prompt error raw s = unfold calls_of in omega arith
  attempts-Within run t r z (suc left) prompt error raw s =
      let s' = (complete b q prompt s).1 in
      let n = calls_of-complete b q prompt s run t r in
      elim (Option-cases (exhausted c q.pipeline_run_id s)) [
        | inr (kind, e) ↦ rw (e, attempts) (omega arith)
        | inl e ↦
            let room = exhausted-none c run s (rw r at e) z in
            elim (Reply-cases (b.complete s.requests prompt)) [
              | inl (text, a) ↦ elim (Validated-cases (schema.validate text)) [
                | inl (v, k) ↦ rw (e, a, k, attempts) (omega (arith, n, room))
                | inr (why, k) ↦
                    let h =
                      attempts-Within run t r z left (retry_prompt q.user (short why)) (short why)
                        text s' in
                    rw (e, a, k, attempts) (omega (arith, n, room, h))
              ]
              | inr (message, text, again, a) ↦ elim (Bool-cases again) [
                | inr y ↦ rw (e, a, y, attempts) (omega (arith, n, room))
                | inl y ↦
                    let h =
                      attempts-Within run t r z left (retry_prompt q.user message) message text
                        s' in
                    rw (e, a, y, attempts) (omega (arith, n, room, h))
              ]
            ]
      ]

  -- In a run of the pipeline with a ceiling on calls, over a backend that tracks its usage, a call
  -- never takes the recorded calls of the run over the ceiling, if they were not over it before.
  pub call-Within :
      (run : ℕ) (s : LlmStore)
      → b.tracks_usage ≡ true
      → q.pipeline_run_id ≡ some run
      → c.max_calls_per_pipeline_run ≢ 0
      → calls_of run (call schema c b q s).1 ≤ max (calls_of run s) c.max_calls_per_pipeline_run
  unfolding call
  call-Within run s t r z = attempts-Within run t r z (c.max_retries + 1) q.user "no response" "" s

  -- When no calls remain to the run, a call makes no request and changes nothing: it reports the
  -- exhausted budget.
  pub call-remaining_pipeline_call_capacity :
      (s : LlmStore)
      → remaining_pipeline_call_capacity c q.pipeline_run_id s ≡ some 0
      → call schema c b q s ≡ (budget_exceeded call_budget, s)
  unfolding call attempts
  call-remaining_pipeline_call_capacity s h =
      let e : exhausted c q.pipeline_run_id s ≡ some call_budget =
        no_capacity c q.pipeline_run_id s h in
      let k : c.max_retries + 1 ≡ suc c.max_retries = omega arith in rw (k, e, attempts) refl
