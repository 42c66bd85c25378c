-- ===== src/Falsify/Verdicts.antt =====
-- When the challenge loop commits to a verdict, and when it does not.
use repoauditor.Prelude.{
  ℕ, zero, suc, ◌+◌, ◌≤◌, ◌<◌, ◌≡◌, ◌⊎◌, refl, Bool, true, false, Option, none, some, ◌&&◌, leb,
  length, length-append, arith, inl, inr, Bool-cases, Option-cases, min, max, subst,
}
use repoauditor.Store.{confirmed, killed, unresolved}
use repoauditor.Falsify.Witness.{verified_guard_miss}
use repoauditor.Falsify.Loop.{
  World, Settings, FalsificationOutcome, Completion, SelfCritique, Round, Log, run_round,
  log_iteration, unresolved_from, rounds, clamped, challenge_finding, verification_of,
  counterexample_upholds,
}

-- The round asked for the verdict `v`, which is confident and terminal; an enabled critique upheld
-- it with confidence; and no check of a witness speaks against a confirmation.
pub record Commits (w : World) (self_critique : Bool) (k : ℕ) (v : FalsificationOutcome)
    : Type 0 where
  pub asked : Completion FalsificationOutcome
  pub answer : w.verdict k ≡ some asked
  pub is_answer : asked.value ≡ v
  pub confident : asked.low_confidence ≡ false
  pub terminal : (v.status ≡ confirmed) ⊎ (v.status ≡ killed)
  pub upheld :
      self_critique ≡ true
      → (c : Completion SelfCritique) × (w.critique k v ≡ some c)
        × (c.value.upholds ≡ true)
        × (c.low_confidence ≡ false)
  pub checked :
      v.status ≡ confirmed
      → (verification_of w k v ≡ none) ⊎ (verification_of w k v ≡ some verified_guard_miss)

run_round-Commits :
    (w : World) (self_critique : Bool) (k : ℕ) (r : Round)
    → run_round w self_critique k ≡ some r
    → r.committed ≡ true
    → Commits w self_critique k r.verdict
unfolding run_round counterexample_upholds
run_round-Commits w self_critique k r h c = elim (Option-cases (w.verdict k)) [
  | inl e ↦ cc (rw (e, run_round) at h)
  | inr (a, e) ↦ record {
    asked = a;
    answer = e;
    is_answer = ground arith;
    confident = ground arith;
    terminal = ground arith;
    upheld = λ on. elim (Option-cases (w.critique k r.verdict)) [
      | inl x ↦ absurd (ground arith)
      | inr (b, x) ↦ (b, x, ground arith, ground arith)
    ];
    checked = λ on. ground arith;
  }
]

-- A round of the run commits to `v`, not before the least number of rounds and within the most.
abbrev pub CommitsAt : World → Settings → ℕ → ℕ → FalsificationOutcome → Type 0
CommitsAt w s from to v =
    (k : ℕ) × (from ≤ k) × (k < to) × (s.minimum_iterations ≤ k) × Commits w s.self_critique k v

rounds_cases :
    (w : World) (s : Settings) (id : Option ℕ) (left iteration : ℕ)
    (last : Option FalsificationOutcome) (log : Log) (v : FalsificationOutcome)
    → (rounds w s id left iteration last log).0 ≡ some v
    → (v.status ≡ unresolved) ⊎ CommitsAt w s iteration (iteration + left) v
unfolding rounds unresolved_from
rounds_cases w s id zero iteration none log v h = inl (ground arith)
rounds_cases w s id zero iteration (some l) log v h = inl (ground arith)
rounds_cases w s id (suc left) iteration last log v h =
    elim (Option-cases (run_round w s.self_critique iteration)) [
      | inl e ↦ cc (rw (e, rounds) at h)
      | inr (r, e) ↦ elim (Bool-cases (r.committed && leb s.minimum_iterations iteration)) [
        | inl c ↦
            let q : r.verdict ≡ v = cc (rw (e, c, rounds) at h) in
            inr (
              iteration,
              omega arith,
              omega arith,
              ground arith,
              subst (Commits w s.self_critique iteration) q
                  (run_round-Commits w s.self_critique iteration r e (ground arith)),
            )
        | inr c ↦
            let log' = log_iteration w s.persist_artifacts id iteration r log in
            elim (rounds_cases w s id left (suc iteration) (some r.verdict) log' v
              (rw (e, c, rounds) at h)) [
                | inl u ↦ inl u
                | inr (k, a, b, d, t) ↦ inr (k, omega arith, omega arith, d, t)
              ]
      ]
    ]

-- A verdict that the loop returns is unresolved, or some round from the least number of rounds on
-- and within the bound commits to it.
pub challenge_finding_cases :
    (w : World) (s : Settings) (id : Option ℕ) (log : Log) (v : FalsificationOutcome)
    → (challenge_finding w s id log).0 ≡ some v
    → (v.status ≡ unresolved)
      ⊎ ((k : ℕ) × (1 ≤ k)
          × (k ≤ max 1 s.max_iterations)
          × (min s.minimum_iterations (max 1 s.max_iterations) ≤ k)
          × Commits w s.self_critique k v)
unfolding challenge_finding
challenge_finding_cases w s id log v h =
    elim (rounds_cases w (clamped s) id (clamped s).max_iterations 1 none log v h) [
      | inl u ↦ inl u
      | inr (k, a, b, c, t) ↦ inr (k, omega arith, omega arith, omega arith, t)
    ]

-- The round answers and the loop goes on after it.
abbrev pub Passes : World → Settings → ℕ → Type 0
Passes w s k =
    (r : Round) × (run_round w s.self_critique k ≡ some r)
    × ((r.committed && leb s.minimum_iterations k) ≡ false)

rounds-first :
    (w : World) (s : Settings) (id : Option ℕ) (ahead left iteration : ℕ)
    (last : Option FalsificationOutcome) (log : Log) (r : Round)
    → ((k : ℕ) → iteration ≤ k → k < iteration + ahead → Passes w s k)
    → ahead < left
    → run_round w s.self_critique (iteration + ahead) ≡ some r
    → (r.committed && leb s.minimum_iterations (iteration + ahead)) ≡ true
    → (rounds w s id left iteration last log).0 ≡ some r.verdict
unfolding rounds
rounds-first w s id ahead zero iteration last log r p h e c = absurd (omega arith)
rounds-first w s id zero (suc left) iteration last log r p h e c =
    let q : iteration + 0 ≡ iteration = omega arith in rw (rw q at e, rw q at c, rounds)
rounds-first w s id (suc ahead) (suc left) iteration last log r p h e c =
    let (r', e', c') = p iteration (omega arith) (omega arith) in
    let q : iteration + suc ahead ≡ suc iteration + ahead = omega arith in
    rw (e', c', rounds)
      (rounds-first w s id ahead left (suc iteration) (some r'.verdict) _ r
        (λ k a b. p k (omega arith) (omega arith)) (omega arith) (rw q at e) (rw q at c))

-- The loop returns the verdict of the first round that commits once the least number is reached.
pub challenge_finding_first :
    (w : World) (s : Settings) (id : Option ℕ) (log : Log) (n : ℕ) (r : Round)
    → ((k : ℕ) → 1 ≤ k → k < 1 + n → Passes w (clamped s) k)
    → n < max 1 s.max_iterations
    → run_round w s.self_critique (1 + n) ≡ some r
    → (r.committed && leb (clamped s).minimum_iterations (1 + n)) ≡ true
    → (challenge_finding w s id log).0 ≡ some r.verdict
unfolding challenge_finding
challenge_finding_first w s id log n r p h e c =
    rounds-first w (clamped s) id n (clamped s).max_iterations 1 none log r p h e c

rounds-exhausted :
    (w : World) (s : Settings) (id : Option ℕ) (left iteration : ℕ)
    (last : Option FalsificationOutcome) (log : Log)
    → ((k : ℕ) → iteration ≤ k → k < iteration + left → Passes w s k)
    → (v : FalsificationOutcome) × ((rounds w s id left iteration last log).0 ≡ some v)
      × (v.status ≡ unresolved)
unfolding rounds unresolved_from
rounds-exhausted w s id zero iteration none log p = (_, refl, refl)
rounds-exhausted w s id zero iteration (some l) log p = (_, refl, refl)
rounds-exhausted w s id (suc left) iteration last log p =
    let (r, e, c) = p iteration (omega arith) (omega arith) in
    rw (e, c, rounds)
      (rounds-exhausted w s id left (suc iteration) (some r.verdict) _
        (λ k a b. p k (omega arith) (omega arith)))

-- If every round answers and none commits, the verdict is unresolved.
pub challenge_finding_exhausted :
    (w : World) (s : Settings) (id : Option ℕ) (log : Log)
    → ((k : ℕ) → 1 ≤ k → k ≤ max 1 s.max_iterations → Passes w (clamped s) k)
    → (v : FalsificationOutcome) × ((challenge_finding w s id log).0 ≡ some v)
      × (v.status ≡ unresolved)
unfolding challenge_finding
challenge_finding_exhausted w s id log p =
    rounds-exhausted w (clamped s) id (clamped s).max_iterations 1 none log
      (λ k a b. p k a (omega arith))

length-log_iteration :
    (w : World) (b : Bool) (id : Option ℕ) (k : ℕ) (r : Round) (log : Log)
    → (length log ≤ length (log_iteration w b id k r log))
      × (length (log_iteration w b id k r log) ≤ length log + 1)
unfolding log_iteration
length-log_iteration w b none k r log = omega arith
length-log_iteration w true (some id) k r log = omega (arith, length-append log _)
length-log_iteration w false (some id) k r log = omega arith

length-rounds :
    (w : World) (s : Settings) (id : Option ℕ) (left iteration : ℕ)
    (last : Option FalsificationOutcome) (log : Log)
    → (length log ≤ length (rounds w s id left iteration last log).1)
      × (length (rounds w s id left iteration last log).1 ≤ length log + left)
unfolding rounds
length-rounds w s id zero iteration last log = omega arith
length-rounds w s id (suc left) iteration last log =
    elim (Option-cases (run_round w s.self_critique iteration)) [
      | inl e ↦ rw (e, rounds) (omega arith)
      | inr (r, e) ↦
          let log' = log_iteration w s.persist_artifacts id iteration r log in
          let h = length-log_iteration w s.persist_artifacts id iteration r log in
          elim (Bool-cases (r.committed && leb s.minimum_iterations iteration)) [
            | inl c ↦ rw (e, c, rounds) (omega (arith, h))
            | inr c ↦
                rw (e, c, rounds)
                  (omega
                    (arith, h, length-rounds w s id left (suc iteration) (some r.verdict) log'))
          ]
    ]

-- Whether it returns or raises, the loop removes no logged round and adds at most as many as it
-- may run.
pub length-challenge_finding :
    (w : World) (s : Settings) (id : Option ℕ) (log : Log)
    → (length log ≤ length (challenge_finding w s id log).1)
      × (length (challenge_finding w s id log).1 ≤ length log + max 1 s.max_iterations)
unfolding challenge_finding
length-challenge_finding w s id log =
    length-rounds w (clamped s) id (clamped s).max_iterations 1 none log
