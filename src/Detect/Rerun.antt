-- ===== src/Detect/Rerun.antt =====
-- A second run of the loop of `run_ensemble` in src/repoauditor/detect/ensemble.py.
use repoauditor.Prelude.{
  ℕ, suc, ◌+◌, ◌≡◌, refl, ◌∙◌, subst, true, String, List, [], ◌∷◌, length, All, All-map, arith,
}
use repoauditor.Detect.Planning.{SelectionBasis}
use repoauditor.Detect.Regions.{RegionKey}
use repoauditor.Detect.Ensemble.{
  World, LensReply, DetectState, Job, key_of, LensOutcome, examined, skipped, interrupted, examine,
  Tally, Run, ended, stopped, run_jobs, jobs_of, run_ensemble,
}
use repoauditor.Detect.Done.{IsSound, is_done, key_eq_self}
use repoauditor.Detect.Examined.{Examined, Advance, examine-Advance}
use repoauditor.Detect.Resume.{joins, is_planned, Completes, run_ensemble-Completes}

-- A run that skips everything: no call, no finding and no failure more.
abbrev pub Skips : ℕ → DetectState → Run → Type 0
Skips n s (ended y t) =
    (y.skipped_completed_region_calls ≡ n)
    × (y.completed_region_calls ≡ 0)
    × (t.calls ≡ s.calls)
    × (t.findings ≡ s.findings)
    × (t.failures ≡ s.failures)
Skips n s (stopped t) = ⊥

Skips-step :
    (m n : ℕ) (s t : DetectState) (r : Run)
    → m ≡ n
    → (t.calls ≡ s.calls) × (t.findings ≡ s.findings) × (t.failures ≡ s.failures)
    → Skips m t r
    → Skips n s r
Skips-step m n s t (ended y u) h (a, b, c) (p, q, d, e, f) = (p ∙ h, q, d ∙ a, e ∙ b, f ∙ c)
Skips-step m n s t (stopped u) h k r = r

run_jobs-Skips :
    (w : World) (js : List Job) (n : ℕ) (s : DetectState)
    → IsSound s.regions
    → All (λ j. is_done (key_of w j) s.regions ≡ true) js
    → Skips (n + length js) s (
        run_jobs w js (record { completed_region_calls = 0; skipped_completed_region_calls = n }) s)
unfolding run_jobs
run_jobs-Skips w [] n s g h = (omega arith, refl, refl, refl, refl)
run_jobs-Skips w (j ∷ js) n s g h =
    by_outcome (examine w j s).0 refl (examine-Advance w j s g)
      (run_jobs-Skips w js (suc n) (examine w j s).1)
  where
    by_outcome :
        (o : LensOutcome)
        → (examine w j s).0 ≡ o
        → Advance (key_of w j) s (examine w j s).0 (examine w j s).1
        → (IsSound (examine w j s).1.regions
            → All (λ i. is_done (key_of w i) (examine w j s).1.regions ≡ true) js
            → Skips (suc n + length js) (examine w j s).1 (
                run_jobs w js
                  (record { completed_region_calls = 0; skipped_completed_region_calls = suc n })
                  (examine w j s).1))
        → Skips (n + length (j ∷ js)) s (
            run_jobs w
              (j ∷ js)
              (record { completed_region_calls = 0; skipped_completed_region_calls = n })
              s)
    by_outcome examined e a ih =
        let (x, _) = subst (λ o. Examined (key_of w j) s o (examine w j s).1) e a.own in
        let y = h.0 in cc (x, y)
    by_outcome interrupted e a ih =
        let (x, _) = subst (λ o. Examined (key_of w j) s o (examine w j s).1) e a.own in
        let y = h.0 in cc (x, y)
    by_outcome skipped e a ih =
        let (_, d, c, f, x) = subst (λ o. Examined (key_of w j) s o (examine w j s).1) e a.own in
        let still : All (λ i. is_done (key_of w i) (examine w j s).1.regions ≡ true) js =
          All-map
            (λ i m.
              let y = joins (key_of w j) s (examine w j s).1 d a.others (key_of w i) in
              ground arith)
            js h.1 in
        rw (e, run_jobs)
          (Skips-step _ _ s (examine w j s).1 _ (omega arith) (c, f, x) (ih a.sound still))

-- Every planned region is among the planned ones.
planned-All :
    (w : World) (js xs : List Job)
    → ((q : RegionKey) → is_planned w q xs ≡ true → is_planned w q js ≡ true)
    → All (λ j. is_planned w (key_of w j) js ≡ true) xs
planned-All w js [] h = tt
planned-All w js (x ∷ xs) h =
    let own = key_eq_self (key_of w x) in
    (h (key_of w x) (rw own refl), planned-All w js xs (λ q m. h q (ground arith)))

-- Once a run from a sound table has ended, the same plan run again makes no call, adds no finding
-- and logs no failure, whatever the model would answer: it skips each planned region and lens.
pub run_ensemble-Skips :
    (w : World) (reply : ℕ → LensReply) (planned : List (String × SelectionBasis))
    (s t : DetectState) (y : Tally)
    → IsSound s.regions
    → run_ensemble w planned s ≡ ended y t
    → Skips (length (jobs_of planned)) t (run_ensemble (record w { reply = reply }) planned t)
unfolding run_ensemble
run_ensemble-Skips w reply planned s t y g h =
    let (sound, _, done) =
      subst (Completes w (jobs_of planned) 0 s) h (run_ensemble-Completes w planned s g) in
    let count : 0 + length (jobs_of planned) ≡ length (jobs_of planned) = omega arith in
    let again = record w { reply = reply } in
    subst (λ n. Skips n t (run_ensemble again planned t)) count
      (run_jobs-Skips again (jobs_of planned) 0 t sound (
        All-map (λ j m. let d = done (key_of w j) in ground arith) (jobs_of planned)
          (planned-All w (jobs_of planned) (jobs_of planned) (λ q m. m))))
