-- ===== src/Normalize.antt =====
-- src/repoauditor/normalize/adjudicate.py, with `apply_adjudication` and the debate table of
-- src/repoauditor/store/db.py. Texts that are only shown (rationales, prompts, the note that a
-- resolution appends to a description) are not modelled. The model call is a parameter.
pub mod Licensing
pub mod Results
pub mod Rules
use repoauditor.Prelude.{
  ℕ, suc, ◌+◌, Bool, true, false, not, String, Option, none, some, List, [], ◌∷◌, ◌++◌, map, leb,
  ltb, ◌==◌, if◌then◌else◌, ◌&&◌, ◌||◌, str_eq, option_eq, is_some, any, elem, length, distinct,
  filter_by, max_by,
}
use repoauditor.Store.{
  Finding, Severity, FalsificationStatus, confirmed, killed, unresolved, status_eq, Corroboration,
  SourceType,
}
use repoauditor.Store.Ranks.{severity_rank, cap_severity}
use repoauditor.Matching.Defs.{
  SourceRef, MatchGroup, source_of, source_eq, distinct_sources, has_independent_corroboration,
  representative, find_matches,
}

-- A completed adjudication call: `completion.value` and `completion.low_confidence`.
pub record Adjudication : Type 0 where
  pub severity : Severity
  pub consensus : Bool
  pub low_confidence : Bool

-- `llm.call` on the members of a group; `none` is a raised exception.
abbrev pub Llm : Type 0
Llm = List Finding → Option Adjudication

pub data License : Type 0 where
  corroboration falsification : License

pub record DebatePosition : Type 0 where
  pub source : SourceRef
  pub severity : Severity

pub data DebateOutcome : Type 0 where
  no_consensus consensus : DebateOutcome

pub record AdjudicationDebate : Type 0 where
  pub repo_id : String
  pub file : String
  pub line_start : ℕ
  pub line_end : ℕ
  pub positions : List DebatePosition
  pub outcome : DebateOutcome
  pub resolved_severity : Option Severity

-- The tables that the stage writes, and the number of model calls made.
pub record Journal : Type 0 where
  pub rows : List Finding
  pub debates : List AdjudicationDebate
  pub calls : ℕ

abbrev pub severity_eq : Severity → Severity → Bool
severity_eq a b = severity_rank a == severity_rank b

abbrev pub severity_of : Finding → Severity
severity_of f = f.severity

abbrev pub is_confirmed : Finding → Bool
is_confirmed f = status_eq f.falsification_status confirmed

abbrev pub is_killed : Finding → Bool
is_killed f = status_eq f.falsification_status killed

-- `_license`.
unfoldable pub license : MatchGroup → Option License
license g =
    if has_independent_corroboration (distinct_sources g)
    then some corroboration
    else if any is_confirmed g
    then some falsification
    else none

-- `_positions`.
unfoldable pub positions_of : List Finding → List DebatePosition
positions_of = map (λ f. record { source = source_of f; severity = f.severity })

-- The sources of `fs` not in `seen`, each once, as corroborations.
unfoldable pub other_sources : List SourceRef → List Finding → List Corroboration
other_sources seen [] = []
other_sources seen (f ∷ fs) =
    let src = source_of f in
    let skipped = other_sources seen fs in
    let kept = other_sources (src ∷ seen) fs in
    if elem source_eq src seen
    then skipped
    else record {
      source_type = src.source_type;
      source_name = src.source_name;
      note = none;
      score = none;
    }
      ∷ kept

-- `_merge`.
unfoldable pub merge : Finding → List Finding → Severity → Finding
unfolding other_sources
merge m ms severity =
    let r = representative m ms in
    record r { severity = severity; corroborated_by = other_sources (source_of r ∷ []) (m ∷ ms) }

-- `_merge_unresolved`.
unfoldable pub merge_unresolved : Finding → List Finding → Finding
merge_unresolved m ms =
    let r = representative m ms in
    record r {
      falsification_status = unresolved;
      corroborated_by =
          map
            (λ f. record {
              source_type = (source_of f).source_type;
              source_name = (source_of f).source_name;
              note = some f.severity;
              score = none;
            })
            (m ∷ ms);
    }

-- `COALESCE(new, old)`.
abbrev coalesce {ℓ} : {A : Type ℓ} → Option A → Option A → Option A
coalesce none old = old
coalesce (some a) old = some a

abbrev pub corroborator : Corroboration → SourceRef
corroborator c = record { source_type = c.source_type; source_name = c.source_name }

-- `INSERT ... ON CONFLICT (finding_id, source_type, source_name) DO UPDATE`.
unfoldable pub upsert_corroboration : Corroboration → List Corroboration → List Corroboration
upsert_corroboration c [] = c ∷ []
upsert_corroboration c (d ∷ ds) =
    let rest = upsert_corroboration c ds in
    if source_eq (corroborator d) (corroborator c)
    then record d { note = coalesce c.note d.note; score = coalesce c.score d.score } ∷ ds
    else d ∷ rest

unfoldable pub upsert_all : List Corroboration → List Corroboration → List Corroboration
unfolding upsert_corroboration
upsert_all [] ds = ds
upsert_all (c ∷ cs) ds = upsert_all cs (upsert_corroboration c ds)

abbrev pub same_row : Finding → Finding → Bool
same_row f row = option_eq ◌==◌ row.id f.id

-- `apply_adjudication`, for a finding with an id.
unfoldable pub apply_adjudication : Finding → List Finding → List Finding
unfolding upsert_all
apply_adjudication f = map (λ row.
    if same_row f row
    then record row {
      severity = f.severity;
      falsification_status = f.falsification_status;
      corroborated_by = upsert_all f.corroborated_by row.corroborated_by;
    }
    else row)

-- `_persist_resolution`.
unfoldable pub persist_resolution : Bool → Finding → Journal → Journal
unfolding apply_adjudication
persist_resolution persist f j =
    if persist && is_some f.id then record j { rows = apply_adjudication f j.rows } else j

-- `_record_debate`.
unfoldable pub record_debate :
    Finding → List Finding → DebateOutcome → Option Severity → Journal → Journal
unfolding positions_of
record_debate m ms outcome resolved j =
    let r = representative m ms in
    record j {
      debates =
          j.debates
          ++ (record {
            repo_id = r.repo_id;
            file = r.file;
            line_start = r.line_start;
            line_end = r.line_end;
            positions = positions_of (m ∷ ms);
            outcome = outcome;
            resolved_severity = resolved;
          }
              ∷ []);
    }

abbrev pub ceiling_of : Finding → List Finding → Severity
ceiling_of m ms = max_by severity_rank m.severity (map severity_of ms)

abbrev pub is_unanimous : Finding → List Finding → Bool
is_unanimous m ms =
    length ms == 0 || length (distinct severity_eq (m.severity ∷ map severity_of ms)) == 1

-- What follows the model call in the licensed branch.
unfoldable pub settle : Bool → Finding → List Finding → Adjudication → Journal → Finding × Journal
unfolding merge merge_unresolved record_debate persist_resolution
settle persist m ms a j =
    if not a.consensus || a.low_confidence
    then (let resolved = merge_unresolved m ms in
        (resolved, persist_resolution persist resolved (record_debate m ms no_consensus none j)))
    else (let severity = cap_severity a.severity (ceiling_of m ms) in
        let resolved = merge m ms severity in
        (
          resolved,
          persist_resolution persist resolved (record_debate m ms consensus (some severity) j),
        ))

unfoldable pub debate : Llm → Bool → Finding → List Finding → Journal → Option Finding × Journal
unfolding settle
debate llm persist m ms j = elim (llm (m ∷ ms)) [
  | none ↦ (none, record j { calls = suc j.calls })
  | some a ↦
      let (resolved, j') = settle persist m ms a (record j { calls = suc j.calls }) in
      (some resolved, j')
]

-- The body of the loop over groups, for the group `m ∷ ms`; `none` is a raised exception.
unfoldable pub adjudicate_group :
    Llm → Bool → Finding → List Finding → Journal → Option Finding × Journal
unfolding debate license
adjudicate_group llm persist m ms j =
    if is_unanimous m ms
    then (let resolved = merge m ms (representative m ms).severity in
        (some resolved, persist_resolution persist resolved j))
    else elim (license (m ∷ ms)) [
      | none ↦
          let resolved = merge_unresolved m ms in
          (
            some resolved,
            persist_resolution persist resolved (record_debate m ms no_consensus none j),
          )
      | some _ ↦ debate llm persist m ms j
    ]

-- The loop; what was written before a raise stays written.
unfoldable pub adjudicate_groups :
    Llm → Bool → List MatchGroup → Journal → Option (List Finding) × Journal
adjudicate_groups llm persist [] j = (some [], j)
adjudicate_groups llm persist ([] ∷ gs) j = adjudicate_groups llm persist gs j
adjudicate_groups llm persist ((m ∷ ms) ∷ gs) j =
    let (r, j') = adjudicate_group llm persist m ms j in
    elim r [
      | none ↦ (none, j')
      | some resolved ↦
          let (rest, j'') = adjudicate_groups llm persist gs j' in
          (elim rest [ none ↦ none | some rs ↦ some (resolved ∷ rs) ], j'')
    ]

unfoldable pub adjudicate : Llm → Bool → List Finding → Journal → Option (List Finding) × Journal
unfolding adjudicate_groups
adjudicate llm persist candidates j =
    let live = filter_by (λ f. not (is_killed f)) candidates in
    let (rs, j') = adjudicate_groups llm persist (find_matches live).groups j in
    (elim rs [ none ↦ none | some out ↦ some (out ++ filter_by is_killed candidates) ], j')
