-- ===== src/Examples/Detections.antt =====
-- A detection of one file, in which every lens answers, and a second one.
use repoauditor.Prelude.{◌≡◌, ◌≤◌, refl, true, String, none, some, List, [], ◌∷◌, ◌++◌}
use repoauditor.Prelude.Ints.{pos, negsuc}
use repoauditor.Store.{Finding, reject_finding, new_finding, one}
use repoauditor.Detect.Planning.{SelectionBasis, stable_coverage_sample}
use repoauditor.Detect.Citation.{LensCandidate, same_file}
use repoauditor.Detect.Regions.{owasp, get_region, FindingTable, upsert_detected_finding}
use repoauditor.Detect.Ensemble.{
  World, raised, findings, DetectState, Tally, Run, ended, stopped, finding_of, jobs_of,
  run_ensemble,
}
use repoauditor.Detect.Done.{IsSound}
use repoauditor.Detect.Resume.{Completes, run_ensemble-Completes}
use repoauditor.Detect.Rerun.{Skips, run_ensemble-Skips}
use repoauditor.Detect.Persisted.{finding_of-reject_finding, upsert_detected_finding-again}
use repoauditor.Examples.Plans.{candidate, texts}
use repoauditor.Examples.Samples.{by_lens}

abbrev world : World
world = record {
  repo_id = "shop";
  commit_hash = "9f1";
  texts = texts;
  reply = λ n. findings (candidate ∷ []);
  trust_boundaries = record { id = some 7; name = "public" } ∷ [];
  confidence_threshold = 500000;
  prompt_version = λ l. "v3";
  description = λ c low. c.rationale;
  failure_detail = "TimeoutError";
  now = "2026-01-01 10:00:00";
}

abbrev planned : List (String × SelectionBasis)
planned = ("a.py", stable_coverage_sample) ∷ []

abbrev fresh : DetectState
fresh = record {
  regions = record { rows = []; next_row = 1 };
  findings = record { rows = []; next_row = 1 };
  failures = [];
  calls = 0;
}

fresh-IsSound : IsSound fresh.regions
unfolding get_region
fresh-IsSound = record { below = λ k r h. cc; apart = λ k q r s h i e. cc }

run_ensemble-Completes_example :
    Completes world (jobs_of planned) 0 fresh (run_ensemble world planned fresh)
run_ensemble-Completes_example = run_ensemble-Completes world planned fresh fresh-IsSound

abbrev state_of : Run → DetectState
state_of (ended y t) = t
state_of (stopped t) = t

abbrev tally : Tally
tally = record { completed_region_calls = 3; skipped_completed_region_calls = 0 }

finished :
    run_ensemble world planned fresh ≡ ended tally (state_of (run_ensemble world planned fresh))
unfolding run_ensemble same_file
finished = refl

run_ensemble-Skips_example : Skips 3 (state_of (run_ensemble world planned fresh)) (
    run_ensemble
      (record world { reply = λ n. raised "offline" })
      planned
      (state_of (run_ensemble world planned fresh)))
run_ensemble-Skips_example =
    run_ensemble-Skips world (λ n. raised "offline") planned fresh
      (state_of (run_ensemble world planned fresh)) tally fresh-IsSound finished

abbrev backwards : LensCandidate
backwards = record candidate { line_start = pos 9; line_end = negsuc 2; confidence = negsuc 499999 }

finding_of-reject_finding_example :
    (reject_finding (finding_of world owasp backwards true) ≡ none)
    × ((f : Finding) × (new_finding (finding_of world owasp backwards true) ≡ some f)
        × (f.confidence ≤ one))
finding_of-reject_finding_example = finding_of-reject_finding world owasp backwards true

abbrev table : FindingTable
table = record { rows = []; next_row = 4 }

upsert_detected_finding-again_example :
    (upsert_detected_finding by_lens (upsert_detected_finding by_lens table).1
      ≡ upsert_detected_finding by_lens table)
    × ((more : List Finding) × ((upsert_detected_finding by_lens table).1.rows
          ≡ table.rows ++ more))
upsert_detected_finding-again_example = upsert_detected_finding-again by_lens table
