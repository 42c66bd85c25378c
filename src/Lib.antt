-- ===== src/Lib.antt =====
-- repoauditor audits a repository in stages that share one store: detect writes findings, triage
-- scores them, falsify challenges them with a model, normalize resolves the severities of findings
-- that are one issue, review holds what stays unresolved for a human, and analyze reads what the
-- gate lets through. This library models the parts that decide: which findings are one issue, which
-- verdict or severity a finding gets, who may read it, which regions are examined and where a
-- citation is anchored, and what a run may spend.
--
-- Files, and the code they model (paths from the repository's root):
--   Store          src/repoauditor/store/models.py: findings, statuses, triage rows; Store/Ranks the
--                  order and cap of severities.
--   Matching       src/repoauditor/matching.py: Cwe the weakness classes in a title, Defs same_issue
--                  and find_matches, Forest its union-find; Roots, Joins, Classes, Groups and Pair
--                  hold the proofs.
--   Normalize      src/repoauditor/normalize/adjudicate.py and apply_adjudication of
--                  src/repoauditor/store/db.py; Licensing, Rules and Results hold the
--                  proofs.
--   Falsify        src/repoauditor/falsify: Witness is counterexample.py; Loop is challenge_finding,
--                  Budget the queue and budget, Run the function challenge, all of challenger.py;
--                  Verdicts, Fairness, Deferral and Untouched hold the proofs.
--   Review         src/repoauditor/review: Tables the reads and writes of db.py, Audit audit.py, Gate
--                  and Checkpoint checkpoint.py; Rulings, Counting, Upserts, Raising and
--                  Unsampled hold the proofs.
--   Llm            src/repoauditor/llm/client.py: Client the wrapper, Ceilings the proofs.
--   Sources        src/repoauditor/sourcefiles.py: Selection the bounded selection; Rounds, Distinct
--                  and Shares hold the proofs, and Whole those of a selection without a bound.
--   Runs           the pipeline and stage runs of src/repoauditor/store/db.py: Tables the rows and
--                  their writers, Steps the writers as steps of the store, Chain the walk over linked
--                  batches, Usage the totals of model usage; Lineage and Stages hold proofs.
--   Detect         src/repoauditor/detect: Planning and Plan are planning.py, Citation the citation
--                  checks of ensemble.py and retrieval/index.py, Regions the table of regions of
--                  store/db.py, Ensemble the loop of run_ensemble; Counted, Gathered, Planned,
--                  Search, Anchoring, Stable, Done, Marked, Examined, Resume, Rerun and Persisted hold the
--                  proofs.
--   Analyze        src/repoauditor/analyze/corroboration.py: Corroboration the scoring of agreement
--                  over the groups of Matching; Agreement holds the proofs.
--   Triage         src/repoauditor/triage/labels.py: Labels the derived and manual labels; Manual holds
--                  the proofs.
--   Prelude        shared names, Boolean tests, lists over native numbers, integers, sorting, rows of
--                  tables.
--   Examples       the theorems at concrete inputs.
--
-- How the model stands to the code. A table is a list of its rows in the order of their ids, and a
-- function that writes takes and returns the tables it writes. A raised exception is none or a
-- constructor of a result type, beside the state it leaves. Floats in [0, 1] are whole millionths,
-- line numbers and ids natural numbers; the lines
-- and the confidence that a lens claims are integers until they are checked. Enumerations and records keep the source's names. Code that
-- is not here is a parameter: the answers of models and backends, the regular expression engine,
-- the digest that orders a sample, the schema of an answer, the index of functions that the plan
-- asks.
--
-- Loops. find follows parents on fuel; the fuel (n + 1) * (n + 1) of find_matches is enough, since
-- a forest built from n places has no longer path. The challenge loop and the retries of a call
-- recur on the number of rounds left, which the source's ranges fix. The rounds over the buckets of
-- files have as many steps as there are files, and each deals out one at least. The walk over
-- linked batches has one step more than the table has rows, enough since no row is visited twice.
-- All other loops recur on a list.
--
-- Parts that meet: the plan of Detect selects with Sources and its length is what the projection
-- promises; the loop of Detect anchors with Citation what it persists; Normalize and Falsify use
-- the groups of Matching; the call envelope that Falsify reserves is the one that Llm may spend;
-- Review reads the statuses that Falsify and Normalize write, and its gate composes with Matching
-- to count issues.
--
-- Not modelled: the scanners and the evidence texts of detection, ingestion and mapping, which run
-- programs, git and models; training and simulation over numpy and scikit-learn; evaluation
-- protocols; rendering, the command line and configuration; prompts, and the texts of reasons and
-- rationales. The text that stands beside a falsification status, security claims in review
-- evidence and the latencies of calls in Llm are left out.
mod Prelude
pub mod Store
pub mod Matching
pub mod Normalize
pub mod Falsify
pub mod Review
pub mod Llm
pub mod Sources
pub mod Runs
pub mod Detect
pub mod Analyze
pub mod Triage
mod Examples
