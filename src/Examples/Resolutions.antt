-- ===== src/Examples/Resolutions.antt =====
-- Groups resolved by a model that proposes `critical`.
use repoauditor.Prelude.{
  ◌+◌, ◌≡◌, refl, ◌≤◌, ◌<◌, true, false, not, none, some, List, [], ◌∷◌, map, filter_by, length,
  arith,
}
use repoauditor.Store.{critical, high, Finding}
use repoauditor.Store.Ranks.{severity_rank, cap_severity}
use repoauditor.Matching.Defs.{
  find_matches, representative, has_independent_corroboration, distinct_sources, source_of,
}
use repoauditor.Normalize.{
  Llm, License, Adjudication, AdjudicationDebate, consensus, Journal, license, is_killed,
  is_unanimous, adjudicate_group, adjudicate, adjudicate_groups, debate, settle, persist_resolution,
  merge,
}
use repoauditor.Normalize.Licensing.{adjudicate_group_upgrade}
use repoauditor.Normalize.Rules.{untouched}
use repoauditor.Normalize.Results.{IsPrefix, adjudicate_keeps}
use repoauditor.Examples.Samples.{by_lens, by_tool, by_second_lens, elsewhere, settled}

abbrev bold : Llm
bold fs = some (record { severity = critical; consensus = true; low_confidence = false })

-- A debate of an earlier run.
abbrev earlier : AdjudicationDebate
earlier = record {
  repo_id = "shop";
  file = "old.py";
  line_start = 3;
  line_end = 4;
  positions = [];
  outcome = consensus;
  resolved_severity = some high;
}

abbrev blank : Journal
blank = record { rows = by_lens ∷ by_tool ∷ []; debates = earlier ∷ []; calls = 0 }

abbrev pair : List Finding
pair = by_tool ∷ []

abbrev raised : Finding
raised = merge by_lens pair high

resolved : (adjudicate_group bold true by_lens pair blank).0 ≡ some raised
unfolding adjudicate_group debate settle persist_resolution license cap_severity
    has_independent_corroboration source_of
resolved = refl

lower : severity_rank (representative by_lens pair).severity < severity_rank raised.severity
unfolding merge
lower = omega arith

adjudicate_group_upgrade_example :
    (l : License) × (a : Adjudication) × (license (by_lens ∷ pair) ≡ some l)
    × (bold (by_lens ∷ pair) ≡ some a)
    × (a.consensus ≡ true)
    × (a.low_confidence ≡ false)
    × (severity_rank raised.severity ≤ severity_rank a.severity)
adjudicate_group_upgrade_example =
    adjudicate_group_upgrade bold true by_lens pair blank raised resolved lower

abbrev lenses : List Finding
lenses = by_second_lens ∷ []

divided : is_unanimous by_lens lenses ≡ false
divided = refl

no_license : license (by_lens ∷ lenses) ≡ none
unfolding license has_independent_corroboration source_of
no_license = refl

abbrev candidates : List Finding
candidates = by_lens ∷ settled ∷ by_tool ∷ elsewhere ∷ []

abbrev live : List Finding
live = filter_by (λ f. not (is_killed f)) candidates

finished : (out : List Finding) × ((adjudicate bold true candidates blank).0 ≡ some out)
unfolding adjudicate adjudicate_groups adjudicate_group debate settle persist_resolution license
    cap_severity has_independent_corroboration source_of find_matches
    repoauditor.Matching.Forest.find repoauditor.Matching.Defs.same_issue
    repoauditor.Matching.Defs.same_unkeyed repoauditor.Matching.Cwe.cwes_of
    repoauditor.Matching.Defs.line_overlap repoauditor.Matching.Forest.union
    repoauditor.Matching.Forest.range
finished = (_, refl)

adjudicate_keeps_example :
    (map untouched (adjudicate bold true candidates blank).1.rows ≡ map untouched blank.rows)
    × ((adjudicate bold true candidates blank).1.calls
        ≤ blank.calls + length (find_matches live).groups)
    × IsPrefix blank.debates (adjudicate bold true candidates blank).1.debates
adjudicate_keeps_example = adjudicate_keeps bold true candidates blank
