-- ===== src/Triage/Labels.antt =====
-- `derive_labels` and `label_finding` of src/repoauditor/triage/labels.py, and the table
-- `triage_label` of src/repoauditor/store/db.py. The texts of derived notes and the time of an update
-- are not modelled; of a row of features only what a label takes from it is.
use repoauditor.Prelude.{
  ℕ, suc, Bool, true, false, String, Option, none, some, List, [], ◌∷◌, ◌++◌, ◌==◌, str_eq, ◌&&◌,
  if◌then◌else◌,
}
use repoauditor.Prelude.Rows.{first_where, update_where}
use repoauditor.Store.{Finding, FalsificationStatus, confirmed, killed, unresolved, deferred}
use repoauditor.Review.Tables.{
  ReviewDisposition, confirm, dismiss, ReviewStore, get_review_request, list_review_requests,
  latest_review_decision,
}

pub data TriageLabelSource : Type 0 where
  manual derived_falsify derived_review : TriageLabelSource

abbrev pub is_manual : TriageLabelSource → Bool
is_manual manual = true
is_manual _ = false

pub record TriageLabel : Type 0 where
  pub id : ℕ
  pub engagement : String
  pub rule_id : String
  pub finding_fingerprint : String
  pub actionable : Bool
  pub source : TriageLabelSource
  pub note : Option String

pub record LabelTable : Type 0 where
  pub rows : List TriageLabel
  pub next_row : ℕ

pub record TriageFeatureRecord : Type 0 where
  pub finding_id : ℕ
  pub engagement : String
  pub rule_id : String
  pub fingerprint : String

abbrev pub is_label : String → String → TriageLabel → Bool
is_label engagement fingerprint r =
    str_eq r.engagement engagement && str_eq r.finding_fingerprint fingerprint

unfoldable pub get_label : String → String → List TriageLabel → Option TriageLabel
get_label engagement fingerprint = first_where (is_label engagement fingerprint)

-- The columns of `DO UPDATE SET`.
abbrev pub relabelled : TriageLabel → TriageLabel → TriageLabel
relabelled l r = record r {
  rule_id = l.rule_id;
  actionable = l.actionable;
  source = l.source;
  note = l.note;
}

-- `ON CONFLICT (engagement, finding_fingerprint) DO UPDATE`, with the guard on manual rows.
unfoldable pub upsert_triage_label : (protect_manual : Bool) → TriageLabel → LabelTable → LabelTable
unfolding get_label
upsert_triage_label protect_manual l t =
    elim (get_label l.engagement l.finding_fingerprint t.rows) [
      | none ↦ record {
        rows = t.rows ++ record l { id = t.next_row } ∷ [];
        next_row = suc t.next_row;
      }
      | some old ↦ if protect_manual && is_manual old.source then t else record t {
        rows = update_where (is_label l.engagement l.finding_fingerprint) (relabelled l) t.rows;
      }
    ]

unfoldable pub derive_disposition :
    FalsificationStatus → Option ReviewDisposition → Option (Bool × TriageLabelSource)
derive_disposition status (some confirm) = some (true, derived_review)
derive_disposition status (some dismiss) = some (false, derived_review)
derive_disposition confirmed none = some (true, derived_falsify)
derive_disposition killed none = some (false, derived_falsify)
derive_disposition unresolved none = none
derive_disposition deferred none = none

-- The entry of `review_dispositions` for a finding: the latest decision on its request.
unfoldable pub review_disposition : String → ℕ → ReviewStore → Option ReviewDisposition
unfolding get_review_request list_review_requests latest_review_decision
review_disposition repo_id finding_id s =
    elim (get_review_request finding_id (list_review_requests repo_id s.requests)) [
      | none ↦ none
      | some r ↦ elim (latest_review_decision r.id s.decisions) [
        | none ↦ none
        | some d ↦ some d.disposition
      ]
    ]

unfoldable pub get_triage_features : ℕ → List TriageFeatureRecord → Option TriageFeatureRecord
get_triage_features finding_id = first_where (λ r. r.finding_id == finding_id)

pub record DerivedLabelSummary : Type 0 where
  pub written : ℕ
  pub from_falsify : ℕ
  pub from_review : ℕ
  pub skipped_ambiguous : ℕ

abbrev pub label_of : TriageFeatureRecord → Bool → TriageLabelSource → Option String → TriageLabel
label_of r actionable source note = record {
  id = 0;
  engagement = r.engagement;
  rule_id = r.rule_id;
  finding_fingerprint = r.fingerprint;
  actionable = actionable;
  source = source;
  note = note;
}

abbrev pub counted : TriageLabelSource → DerivedLabelSummary → DerivedLabelSummary
counted derived_review y = record y { written = suc y.written; from_review = suc y.from_review }
counted _ y = record y { written = suc y.written; from_falsify = suc y.from_falsify }

-- The features of a finding with an id.
abbrev pub features_of : Finding → List TriageFeatureRecord → Option TriageFeatureRecord
features_of f features = elim f.id [ none ↦ none | some i ↦ get_triage_features i features ]

-- What one finding adds to the labels and the summary.
unfoldable pub derive_label :
    ReviewStore
    → List TriageFeatureRecord
    → Finding
    → LabelTable × DerivedLabelSummary
    → LabelTable × DerivedLabelSummary
unfolding get_triage_features derive_disposition review_disposition upsert_triage_label
derive_label s features f (t, y) = elim (features_of f features) [
  | none ↦ (t, y)
  | some r ↦
      elim (derive_disposition f.falsification_status
        (review_disposition f.repo_id r.finding_id s)) [
          | none ↦ (t, record y { skipped_ambiguous = suc y.skipped_ambiguous })
          | some (actionable, source) ↦
              (upsert_triage_label true (label_of r actionable source none) t, counted source y)
        ]
]

abbrev pub derive_each :
    ReviewStore
    → List TriageFeatureRecord
    → List Finding
    → LabelTable × DerivedLabelSummary
    → LabelTable × DerivedLabelSummary
derive_each s features [] a = a
derive_each s features (f ∷ fs) a = derive_each s features fs (derive_label s features f a)

unfoldable pub derive_labels :
    ReviewStore
    → List TriageFeatureRecord
    → List Finding
    → LabelTable
    → LabelTable × DerivedLabelSummary
unfolding derive_label
derive_labels s features fs t =
    derive_each s features fs
      (t, record { written = 0; from_falsify = 0; from_review = 0; skipped_ambiguous = 0 })

-- A manual label; an unknown finding, or one without features, is refused.
unfoldable pub label_finding :
    ℕ
    → Bool
    → Option String
    → List Finding
    → List TriageFeatureRecord
    → LabelTable
    → Option (TriageLabel × LabelTable)
unfolding get_triage_features upsert_triage_label
label_finding finding_id actionable note fs features t =
    elim (first_where (λ f. elim f.id [ none ↦ false | some i ↦ i == finding_id ]) fs) [
      | none ↦ none
      | some f ↦ elim (get_triage_features finding_id features) [
        | none ↦ none
        | some r ↦
            let l = label_of r actionable manual note in some (l, upsert_triage_label false l t)
      ]
    ]
