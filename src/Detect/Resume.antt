-- ===== src/Detect/Resume.antt =====
-- How the loop of `run_ensemble` in src/repoauditor/detect/ensemble.py advances the completed regions,
-- and what a second run does.
use repoauditor.Prelude.{
  ℕ, suc, ◌+◌, ◌≡◌, ◌≢◌, refl, sym, ap, ◌∙◌, subst, Bool, true, false, ◌||◌, String, List, [], ◌∷◌,
  ◌++◌, any, length, arith, inl, inr, Bool-cases,
}
use repoauditor.Detect.Planning.{SelectionBasis}
use repoauditor.Detect.Regions.{RegionKey, key_eq}
use repoauditor.Detect.Ensemble.{
  World, DetectState, Job, key_of, LensOutcome, examined, skipped, interrupted, examine, Tally, Run,
  ended, stopped, run_jobs, jobs_of, run_ensemble,
}
use repoauditor.Detect.Done.{IsSound, is_done, key_eq-same, key_eq_self}
use repoauditor.Detect.Examined.{Examined, Advance, examine-Advance}

abbrev pub is_planned : World → RegionKey → List Job → Bool
is_planned w q = any (λ j. key_eq q (key_of w j))

-- The completed regions as a set: a run that ends adds the planned ones, and one that is stopped adds
-- those before the region that it stops at, which is not completed.
abbrev pub Completes : World → List Job → ℕ → DetectState → Run → Type 0
Completes w js counted s (ended y t) =
    IsSound t.regions
    × (y.completed_region_calls + y.skipped_completed_region_calls ≡ counted + length js)
    × ((q : RegionKey) → is_done q t.regions ≡ (is_done q s.regions || is_planned w q js))
Completes w js counted s (stopped t) =
    IsSound t.regions
    × ((before : List Job) × (j : Job) × (after : List Job) × (js ≡ before ++ j ∷ after)
        × (is_done (key_of w j) t.regions ≡ false)
        × ((q : RegionKey) → is_done q t.regions ≡ (is_done q s.regions || is_planned w q before)))

-- A region that is done afterwards joins the set.
pub joins :
    (k : RegionKey) (s t : DetectState)
    → is_done k t.regions ≡ true
    → ((q : RegionKey) → q ≢ k → is_done q t.regions ≡ is_done q s.regions)
    → (q : RegionKey) → is_done q t.regions ≡ (is_done q s.regions || key_eq q k)
joins k s t d others q = elim (Bool-cases (key_eq q k)) [
  | inl e ↦
      let here : is_done q t.regions ≡ true =
        subst (λ x. is_done x t.regions ≡ true) (sym (key_eq-same q k e)) d in
      rw e (here ∙ sym (or_true (is_done q s.regions)))
  | inr e ↦
      let apart : q ≢ k =
        λ same. cc (subst (λ x. key_eq x k ≡ true) (sym same) (key_eq_self k), e) in
      rw e (others q apart ∙ sym (or_false (is_done q s.regions)))
]
  where
    or_true : (b : Bool) → (b || true) ≡ true
    or_true b = ground arith

    or_false : (b : Bool) → (b || false) ≡ b
    or_false b = ground arith

stays :
    (k : RegionKey) (s t : DetectState)
    → is_done k s.regions ≡ false
    → is_done k t.regions ≡ false
    → ((q : RegionKey) → q ≢ k → is_done q t.regions ≡ is_done q s.regions)
    → (q : RegionKey) → is_done q t.regions ≡ (is_done q s.regions || false)
stays k s t a b others q = elim (Bool-cases (key_eq q k)) [
  | inl e ↦
      let same = sym (key_eq-same q k e) in
      let x = subst (λ x. is_done x t.regions ≡ false) same b in
      let y = subst (λ x. is_done x s.regions ≡ false) same a in ground arith
  | inr e ↦
      let apart : q ≢ k =
        λ same. cc (subst (λ x. key_eq x k ≡ true) (sym same) (key_eq_self k), e) in
      let x = others q apart in ground arith
]

-- A run after one more region that is done.
Completes-step :
    (w : World) (j : Job) (js : List Job) (m counted : ℕ) (s t : DetectState) (r : Run)
    → ((q : RegionKey) → is_done q t.regions ≡ (is_done q s.regions || key_eq q (key_of w j)))
    → m ≡ suc counted
    → Completes w js m t r
    → Completes w (j ∷ js) counted s r
Completes-step w j js m counted s t (ended y u) h c (g, n, d) =
    (g, omega (arith, n, c), λ q. let a = d q in let b = h q in ground arith)
Completes-step w j js m counted s t (stopped u) h c (g, (before, i, after, e, f, d)) = (
  g,
  (j ∷ before, i, after, ap (λ l. j ∷ l) e, f, λ q. let a = d q in let b = h q in ground arith),
)

run_jobs-Completes :
    (w : World) (js : List Job) (y : Tally) (s : DetectState)
    → IsSound s.regions
    → Completes w js
        (y.completed_region_calls + y.skipped_completed_region_calls)
        s
        (run_jobs w js y s)
unfolding run_jobs
run_jobs-Completes w [] y s g = (g, omega arith, λ q. ground arith)
run_jobs-Completes w (j ∷ js) y s g =
    by_outcome (examine w j s).0 refl (examine-Advance w j s g)
      (λ z. run_jobs-Completes w js z (examine w j s).1)
  where
    by_outcome :
        (o : LensOutcome)
        → (examine w j s).0 ≡ o
        → Advance (key_of w j) s (examine w j s).0 (examine w j s).1
        → ((z : Tally)
            → IsSound (examine w j s).1.regions
            → Completes w js
                (z.completed_region_calls + z.skipped_completed_region_calls)
                (examine w j s).1
                (run_jobs w js z (examine w j s).1))
        → Completes w
            (j ∷ js)
            (y.completed_region_calls + y.skipped_completed_region_calls)
            s
            (run_jobs w (j ∷ js) y s)
    by_outcome examined e a ih =
        let (_, d) = subst (λ o. Examined (key_of w j) s o (examine w j s).1) e a.own in
        rw (e, run_jobs)
          (Completes-step w j js _ _ s (examine w j s).1 _
            (joins (key_of w j) s (examine w j s).1 d a.others) (omega arith)
            (ih (record y { completed_region_calls = suc y.completed_region_calls }) a.sound))
    by_outcome skipped e a ih =
        let (_, d, _, _, _) = subst (λ o. Examined (key_of w j) s o (examine w j s).1) e a.own in
        rw (e, run_jobs)
          (Completes-step w j js _ _ s (examine w j s).1 _
            (joins (key_of w j) s (examine w j s).1 d a.others) (omega arith)
            (ih (record y { skipped_completed_region_calls = suc y.skipped_completed_region_calls })
              a.sound))
    by_outcome interrupted e a ih =
        let (c, d) = subst (λ o. Examined (key_of w j) s o (examine w j s).1) e a.own in
        rw (e, run_jobs)
          (a.sound, ([], j, js, refl, d, stays (key_of w j) s (examine w j s).1 c d a.others))

-- A run from a sound table refines the addition to a set: ended, it has completed the planned regions
-- besides those that were, and counted each planned one once; stopped, those before the region where
-- it stopped.
pub run_ensemble-Completes :
    (w : World) (planned : List (String × SelectionBasis)) (s : DetectState)
    → IsSound s.regions
    → Completes w (jobs_of planned) 0 s (run_ensemble w planned s)
unfolding run_ensemble
run_ensemble-Completes w planned s g = run_jobs-Completes w (jobs_of planned) _ s g
