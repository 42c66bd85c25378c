-- ===== src/Triage/Manual.antt =====
-- What a derivation of labels in src/repoauditor/triage/labels.py keeps and counts.
use repoauditor.Prelude.{
  ℕ, ◌+◌, ◌≡◌, refl, sym, ap, ◌∙◌, subst, Bool, true, false, String, str_eq_iff, is_some, none,
  some, List, [], ◌∷◌, length, filter_by, if◌then◌else◌, arith, inl, inr, Bool-cases, Option-cases,
}
use repoauditor.Prelude.Rows.{
  first_where, first_where-update, first_where-append, first_where-passes, changed, or_else,
  All-trivial,
}
use repoauditor.Store.{Finding}
use repoauditor.Review.Tables.{ReviewStore}
use repoauditor.Triage.Labels.{
  TriageLabelSource, is_manual, TriageLabel, LabelTable, TriageFeatureRecord, is_label, get_label,
  relabelled, upsert_triage_label, derive_disposition, review_disposition, DerivedLabelSummary,
  label_of, counted, features_of, derive_label, derive_each, derive_labels, derived_review,
  derived_falsify, manual,
}

-- A label that an analyst asserted is as it was.
abbrev pub KeepsManual : LabelTable → LabelTable → Type 0
KeepsManual t u =
    (e p : String) (l : TriageLabel)
    → get_label e p t.rows ≡ some l
    → is_manual l.source ≡ true
    → get_label e p u.rows ≡ some l

found_label :
    (e p : String) (rs : List TriageLabel) (l : TriageLabel)
    → get_label e p rs ≡ some l
    → is_label e p l ≡ true
unfolding get_label
found_label e p rs l h = (first_where-passes (λ q. Unit) (is_label e p) rs l h (All-trivial rs)).1

same_key :
    (e e' p p' : String) (l : TriageLabel)
    → is_label e p l ≡ true
    → is_label e' p' l ≡ true
    → (e ≡ e') × (p ≡ p')
same_key e e' p p' l h k =
    let a = (str_eq_iff l.engagement e).0 (ground arith) in
    let a' = (str_eq_iff l.engagement e').0 (ground arith) in
    let b = (str_eq_iff l.finding_fingerprint p).0 (ground arith) in
    let b' = (str_eq_iff l.finding_fingerprint p').0 (ground arith) in (sym a ∙ a', sym b ∙ b')

upsert_triage_label-KeepsManual :
    (x : TriageLabel) (t : LabelTable) → KeepsManual t (upsert_triage_label true x t)
unfolding upsert_triage_label get_label
upsert_triage_label-KeepsManual x t e p l h m =
    elim (Option-cases (get_label x.engagement x.finding_fingerprint t.rows)) [
      | inl y ↦
          let row : TriageLabel = record x { id = t.next_row } in
          rw (y, upsert_triage_label)
            (first_where-append (is_label e p) t.rows (row ∷ [])
              ∙ ap (λ o. or_else o (first_where (is_label e p) (row ∷ []))) h)
      | inr (old, y) ↦ elim (Bool-cases (is_manual old.source)) [
        | inl z ↦ rw (y, upsert_triage_label, z) h
        | inr z ↦
            let k =
              first_where-update (is_label e p) (is_label x.engagement x.finding_fingerprint)
                (relabelled x) (λ r. refl) t.rows in
            elim (Bool-cases (is_label x.engagement x.finding_fingerprint l)) [
              | inl same ↦
                  let (a, b) =
                    same_key e x.engagement p x.finding_fingerprint l (found_label e p t.rows l h)
                      same in
                  let mine : get_label x.engagement x.finding_fingerprint t.rows ≡ some l =
                    subst (λ q. get_label x.engagement q t.rows ≡ some l) b
                      (subst (λ q. get_label q p t.rows ≡ some l) a h) in
                  let one_row : l ≡ old = cc (mine, y) in
                  cc (subst (λ r. is_manual r.source ≡ true) one_row m, z)
              | inr other ↦
                  rw (y, upsert_triage_label, z)
                    (k
                      ∙ ap (changed (is_label x.engagement x.finding_fingerprint) (relabelled x)) h
                      ∙ ap (λ b. some (if b then relabelled x l else l)) other)
            ]
      ]
    ]

-- What the labels and the summary keep while a number of triaged findings is visited.
abbrev Visited : ℕ → LabelTable × DerivedLabelSummary → LabelTable × DerivedLabelSummary → Type 0
Visited n (t, y) (u, z) =
    KeepsManual t u
    × (z.written + z.skipped_ambiguous ≡ y.written + y.skipped_ambiguous + n)
    × (z.written + (y.from_falsify + y.from_review) ≡ z.from_falsify + z.from_review + y.written)

abbrev pub is_triaged : List TriageFeatureRecord → Finding → Bool
is_triaged features f = is_some (features_of f features)

abbrev one_if : Bool → ℕ
one_if b = if b then 1 else 0

derive_label-Visited :
    (s : ReviewStore) (features : List TriageFeatureRecord) (f : Finding)
    (a : LabelTable × DerivedLabelSummary)
    → Visited (one_if (is_triaged features f)) a (derive_label s features f a)
unfolding derive_label
derive_label-Visited s features f (t, y) = elim (Option-cases (features_of f features)) [
  | inl e ↦ rw (e, derive_label) (λ e p l h m. h, omega arith, omega arith)
  | inr (r, e) ↦
      let d =
        derive_disposition f.falsification_status (review_disposition f.repo_id r.finding_id s) in
      elim (Option-cases d) [
        | inl k ↦ rw (e, derive_label, k) (λ e p l h m. h, omega arith, omega arith)
        | inr ((actionable, source), k) ↦
            let (i, j) = counts source in
            rw (e, derive_label, k)
              (upsert_triage_label-KeepsManual (label_of r actionable source none) t, i, j)
      ]
]
  where
    counts :
        (source : TriageLabelSource)
        → ((counted source y).written + (counted source y).skipped_ambiguous
            ≡ y.written + y.skipped_ambiguous + 1)
          × ((counted source y).written + (y.from_falsify + y.from_review)
              ≡ (counted source y).from_falsify + (counted source y).from_review + y.written)
    counts derived_review = (omega arith, omega arith)
    counts derived_falsify = (omega arith, omega arith)
    counts manual = (omega arith, omega arith)

Visited-trans :
    (m n k : ℕ) (a b c : LabelTable × DerivedLabelSummary)
    → m + n ≡ k
    → Visited m a b
    → Visited n b c
    → Visited k a c
Visited-trans m n k (t, y) (u, z) (v, x) h (p, q, r) (p', q', r') =
    (λ e f l g o. p' e f l (p e f l g o) o, omega (arith, h, q, q'), omega (arith, r, r'))

derive_each-Visited :
    (s : ReviewStore) (features : List TriageFeatureRecord) (fs : List Finding)
    (a : LabelTable × DerivedLabelSummary)
    → Visited (length (filter_by (is_triaged features) fs)) a (derive_each s features fs a)
derive_each-Visited s features [] (t, y) = (λ e p l h m. h, omega arith, omega arith)
derive_each-Visited s features (f ∷ fs) a =
    let b = derive_label s features f a in
    Visited-trans (one_if (is_triaged features f)) (length (filter_by (is_triaged features) fs)) _ a
      b (derive_each s features fs b) (counts_one (is_triaged features f))
      (derive_label-Visited s features f a) (derive_each-Visited s features fs b)
  where
    counts_one :
        (b : Bool)
        → one_if b + length (filter_by (is_triaged features) fs)
          ≡ length (
              if b
              then f ∷ filter_by (is_triaged features) fs
              else filter_by (is_triaged features) fs)
    counts_one true = omega arith
    counts_one false = omega arith

-- A derivation leaves each manual label as it was. Each finding with features is counted once, as
-- written or as ambiguous, and the written ones are those from a verdict and those from a review.
pub derive_labels-KeepsManual :
    (s : ReviewStore) (features : List TriageFeatureRecord) (fs : List Finding) (t : LabelTable)
    → KeepsManual t (derive_labels s features fs t).0
      × ((derive_labels s features fs t).1.written
            + (derive_labels s features fs t).1.skipped_ambiguous
          ≡ length (filter_by (is_triaged features) fs))
      × ((derive_labels s features fs t).1.written
          ≡ (derive_labels s features fs t).1.from_falsify
            + (derive_labels s features fs t).1.from_review)
unfolding derive_labels
derive_labels-KeepsManual s features fs t =
    let start : DerivedLabelSummary = record {
      written = 0;
      from_falsify = 0;
      from_review = 0;
      skipped_ambiguous = 0;
    } in
    let (p, q, r) = derive_each-Visited s features fs (t, start) in
    (p, omega (arith, q), omega (arith, r))
