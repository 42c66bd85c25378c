-- ===== src/Detect/Persisted.antt =====
-- The findings that `_persist_candidate` of src/repoauditor/detect/ensemble.py hands to
-- `upsert_detected_finding` of src/repoauditor/store/db.py.
use repoauditor.Prelude.{
  ℕ, suc, ◌≡◌, refl, sym, ap, ◌∙◌, Bool, true, false, String, str_eq, str_eq_iff, option_eq,
  option_eq_iff, Option, none, some, List, [], ◌∷◌, ◌++◌, append-nil, ◌==◌, leb, ◌≤◌, if◌then◌else◌,
  arith, inl, inr, Bool-cases, Option-cases,
}
use repoauditor.Prelude.Ints.{ℤ, pos, negsuc, natural, int_leb, int_ltb, int_min, int_max}
use repoauditor.Prelude.Rows.{first_where, first_where-append, or_else}
use repoauditor.Store.{Finding, FindingFields, reject_finding, new_finding, one}
use repoauditor.Detect.Citation.{LensCandidate}
use repoauditor.Detect.Regions.{Lens, FindingTable, is_same_finding, upsert_detected_finding}
use repoauditor.Detect.Ensemble.{World, finding_of}

-- The clamp of a confidence to the bounds, and the order of the lines.
clamped : (n : ℤ) → (k : ℕ) × (int_min (int_max n (pos 0)) (pos one) ≡ pos k) × (k ≤ one)
clamped (negsuc n) = (0, refl, omega arith)
clamped (pos n) = elim (Bool-cases (leb n one)) [
  | inl e ↦ let low : leb 0 n ≡ true = ground arith in (n, rw (low, e) refl, ground (arith, e))
  | inr e ↦ let low : leb 0 n ≡ true = ground arith in (one, rw (low, e) refl, omega arith)
]

int_max-in_order : (a b : ℤ) → int_ltb (int_max a b) b ≡ false
int_max-in_order a b = elim (Bool-cases (int_leb b a)) [
  | inl e ↦ rw e (rw e refl)
  | inr e ↦ rw e (rw (int_leb_self b) refl)
]
  where
    int_leb_self : (n : ℤ) → int_leb n n ≡ true
    int_leb_self (pos n) = ground arith
    int_leb_self (negsuc n) = ground arith

new_finding-confidence :
    (f : FindingFields)
    → reject_finding f ≡ none
    → (x : Finding) × (new_finding f ≡ some x) × (x.confidence ≡ natural f.confidence)
unfolding new_finding
new_finding-confidence f h = rw (h, new_finding) (_, refl, refl)

-- Whatever lines and whatever number for a confidence the model claims, below zero too, the fields
-- that a candidate is persisted with meet the constraints on a finding, so its constructor does
-- not raise, and the confidence of the finding is at most 1.
pub finding_of-reject_finding :
    (w : World) (lens : Lens) (c : LensCandidate) (low : Bool)
    → (reject_finding (finding_of w lens c low) ≡ none)
      × ((f : Finding) × (new_finding (finding_of w lens c low) ≡ some f) × (f.confidence ≤ one))
unfolding finding_of reject_finding new_finding
finding_of-reject_finding w lens c low =
    let (k, e, h) = clamped c.confidence in
    let least : leb 0 k ≡ true = ground arith in
    let most : leb k one ≡ true = ground (arith, h) in
    let order = int_max-in_order c.line_end c.line_start in
    let valid : reject_finding (finding_of w lens c low) ≡ none = rw (e, least, most, order) refl in
    let (f, made, stored) = new_finding-confidence (finding_of w lens c low) valid in
    let same : natural (finding_of w lens c low).confidence ≡ k = rw (e, finding_of) refl in
    (valid, (f, made, omega (arith, stored, same, h)))

is_same_finding_self :
    (f : Finding) (i : Option ℕ)
    → is_same_finding f (record f { id = i; corroborated_by = [] }) ≡ true
unfolding is_same_finding
is_same_finding_self f i =
    let own : (s : String) → str_eq s s ≡ true = λ s. (str_eq_iff s s).1 refl in
    let own_option : (o : Option String) → option_eq str_eq o o ≡ true =
      λ o. (option_eq_iff str_eq str_eq_iff o o).1 refl in
    let a : (f.line_start == f.line_start) ≡ true = ground arith in
    let b : (f.line_end == f.line_end) ≡ true = ground arith in
    rw
      (
        own f.repo_id,
        own_option f.source_lens,
        own_option f.source_tool,
        own f.file,
        a,
        b,
        own f.title,
        own f.citation_snippet,
        own_option f.identity_key,
      )
      refl

-- Persisting a finding again gives the same id and leaves the table, and no row that was there is
-- changed: verdicts and severities survive a second detection.
pub upsert_detected_finding-again :
    (f : Finding) (t : FindingTable)
    → (upsert_detected_finding f (upsert_detected_finding f t).1 ≡ upsert_detected_finding f t)
      × ((more : List Finding) × ((upsert_detected_finding f t).1.rows ≡ t.rows ++ more))
unfolding upsert_detected_finding
upsert_detected_finding-again f t = elim (Option-cases (first_where (is_same_finding f) t.rows)) [
  | inr (row, e) ↦
      let made : upsert_detected_finding f t ≡ (row.id, t) = rw (e, upsert_detected_finding) refl in
      (
        ap (λ p. upsert_detected_finding f p.1) made,
        ([], ap (λ p. p.1.rows) made ∙ sym (append-nil t.rows)),
      )
  | inl e ↦
      let row : Finding = record f { id = some t.next_row; corroborated_by = [] } in
      let found : first_where (is_same_finding f) (t.rows ++ row ∷ []) ≡ some row =
        first_where-append (is_same_finding f) t.rows (row ∷ [])
        ∙ ap (λ o. or_else o (first_where (is_same_finding f) (row ∷ []))) e
        ∙ ap (λ b. if b then some row else none) (is_same_finding_self f (some t.next_row)) in
      let grown : FindingTable = record { rows = t.rows ++ row ∷ []; next_row = suc t.next_row } in
      let made : upsert_detected_finding f t ≡ (some t.next_row, grown) =
        rw (e, upsert_detected_finding) refl in
      let again : upsert_detected_finding f grown ≡ (some t.next_row, grown) =
        rw (found, upsert_detected_finding) refl in
      (
        ap (λ p. upsert_detected_finding f p.1) made ∙ again ∙ sym made,
        (row ∷ [], ap (λ p. p.1.rows) made),
      )
]
