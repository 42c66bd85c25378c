-- ===== src/Examples/Labels.antt =====
-- Two labels, one of them an analyst's, and a derivation that meets both.
use repoauditor.Prelude.{◌+◌, ◌≡◌, true, some, List, [], ◌∷◌, length, filter_by}
use repoauditor.Store.{Finding, killed, confirmed}
use repoauditor.Review.Tables.{ReviewStore}
use repoauditor.Triage.Labels.{LabelTable, TriageFeatureRecord, manual, derive_labels}
use repoauditor.Triage.Manual.{KeepsManual, is_triaged, derive_labels-KeepsManual}
use repoauditor.Examples.Samples.{by_tool, by_lens}

abbrev no_reviews : ReviewStore
no_reviews = record { requests = []; next_request = 1; decisions = []; next_decision = 1 }

abbrev features : List TriageFeatureRecord
features =
    record { finding_id = 1; engagement = "shop"; rule_id = "sqli"; fingerprint = "f1" }
    ∷ record { finding_id = 2; engagement = "shop"; rule_id = "sqli"; fingerprint = "f2" }
    ∷ []

abbrev labels : LabelTable
labels = record {
  rows =
      record {
        id = 1;
        engagement = "shop";
        rule_id = "sqli";
        finding_fingerprint = "f1";
        actionable = true;
        source = manual;
        note = some "reachable from the login form";
      }
      ∷ [];
  next_row = 2;
}

abbrev judged : List Finding
judged =
    record by_lens { falsification_status = killed }
    ∷ record by_tool { falsification_status = confirmed }
    ∷ []

derive_labels-KeepsManual_example :
    KeepsManual labels (derive_labels no_reviews features judged labels).0
    × ((derive_labels no_reviews features judged labels).1.written
          + (derive_labels no_reviews features judged labels).1.skipped_ambiguous
        ≡ length (filter_by (is_triaged features) judged))
    × ((derive_labels no_reviews features judged labels).1.written
        ≡ (derive_labels no_reviews features judged labels).1.from_falsify
          + (derive_labels no_reviews features judged labels).1.from_review)
derive_labels-KeepsManual_example = derive_labels-KeepsManual no_reviews features judged labels
