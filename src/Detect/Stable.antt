-- ===== src/Detect/Stable.antt =====
-- Anchoring an anchored citation again, as `run_ensemble` of src/repoauditor/detect/ensemble.py does
-- after the confidence is resolved.
use repoauditor.Prelude.{
  String, ℕ, ◌≡◌, refl, sym, ap, ◌∙◌, subst, Bool, true, false, some, List, [], ◌∷◌, ◌==◌, leb,
  ◌&&◌, if◌then◌else◌, All, All-map, arith, inl, inr, Bool-cases, Option-cases,
}
use repoauditor.Prelude.Rows.{Holds}
use repoauditor.Matching.Cwe.{text_eq}
use repoauditor.Detect.Citation.{
  CitationLocation, LensCandidate, FileText, locate_citation, same_file, declared_in,
  overlapping_in, anchored, select_location, is_corrected, moved_to, anchor, canonicalize_citation,
  needle_of,
}
use repoauditor.Detect.Anchoring.{
  IsOccurrence, locate_citation-IsOccurrence, select_location-Holds, All-Holds,
}

-- Whether a location shares a line with another, in files that `_same_file` takes for one.
abbrev meets : CitationLocation → CitationLocation → Bool
meets l m = same_file l.file m.file && (leb m.line_start l.line_end && leb l.line_start m.line_end)

-- No two locations share a line in files that `_same_file` takes for one: of the same name, or the
-- name of one ending in that of the other.
abbrev pub IsSpread : List CitationLocation → Type 0
IsSpread [] = Unit
IsSpread (l ∷ ls) = All (λ m. (meets l m ≡ false) × (meets m l ≡ false)) ls × IsSpread ls

same_file_self : (t : String) → same_file t t ≡ true
unfolding same_file
same_file_self t = rw (text_eq_self _) refl
  where
    text_eq_self : (t : List ℕ) → text_eq t t ≡ true
    text_eq_self [] = refl
    text_eq_self (c ∷ t) = let e : (c == c) ≡ true = ground arith in rw e (text_eq_self t)

-- The selection for a candidate that stands at a location, from one more location.
step :
    (c : LensCandidate) (l x : CitationLocation) (xs : List CitationLocation)
    → overlapping_in (moved_to l c) (declared_in (moved_to l c) (x ∷ xs)) ≡ (
        if meets l x
        then x ∷ overlapping_in (moved_to l c) (declared_in (moved_to l c) xs)
        else overlapping_in (moved_to l c) (declared_in (moved_to l c) xs))
step c l x xs = elim (Bool-cases (same_file l.file x.file)) [
  | inl e ↦ rw e refl
  | inr e ↦ rw e refl
]

none_meets :
    (c : LensCandidate) (l : CitationLocation) (xs : List CitationLocation)
    → All (λ m. meets l m ≡ false) xs
    → overlapping_in (moved_to l c) (declared_in (moved_to l c) xs) ≡ []
none_meets c l [] h = refl
none_meets c l (x ∷ xs) h = step c l x xs ∙ rw (h.0) (none_meets c l xs h.1)

alone :
    (c : LensCandidate) (l : CitationLocation) (xs : List CitationLocation)
    → Holds l xs
    → meets l l ≡ true
    → IsSpread xs
    → overlapping_in (moved_to l c) (declared_in (moved_to l c) xs) ≡ l ∷ []
alone c l [] i m s = elim i [ ]
alone c l (x ∷ xs) (inl e) m s =
    let here : meets l x ≡ true = subst (λ y. meets l y ≡ true) e m in
    let others : All (λ y. meets l y ≡ false) xs =
      subst (λ z. All (λ y. meets z y ≡ false) xs) (sym e) (All-map (λ y h. h.0) xs s.0) in
    step c l x xs ∙ rw here (λ i. sym e i ∷ none_meets c l xs others i)
alone c l (x ∷ xs) (inr i) m s =
    let (_, apart) = All-Holds _ xs l s.0 i in step c l x xs ∙ rw apart (alone c l xs i m s.1)

meets_self :
    (needle : List ℕ) (files : List FileText) (l : CitationLocation)
    → IsOccurrence needle files l
    → meets l l ≡ true
meets_self needle files l o = let f = same_file_self l.file in let e = o.ends in rw f (ground arith)

not_corrected : (c : LensCandidate) (l : CitationLocation) → is_corrected l (moved_to l c) ≡ false
not_corrected c l =
    let f = same_file_self l.file in
    let a : (l.line_start == l.line_start) ≡ true = ground arith in
    let b : (l.line_end == l.line_end) ≡ true = ground arith in rw (f, a, b) refl

anchored_again :
    (c : LensCandidate) (m l : CitationLocation) (ls : List CitationLocation)
    → overlapping_in (moved_to m c) (declared_in (moved_to m c) (l ∷ ls)) ≡ m ∷ []
    → anchor (moved_to m c) (l ∷ ls) ≡ anchored (moved_to m c) false
unfolding anchor select_location
anchored_again c m l ls h =
    let chosen : select_location (moved_to m c) (l ∷ ls) ≡ some m = rw (h, select_location) refl in
    rw (anchor, chosen) (ap (λ b. anchored (moved_to m c) b) (not_corrected c m))

-- Where no two occurrences of its snippet share a line number in files that `_same_file` takes for
-- one, because their names are equal or one is a path that ends in the other, an anchored candidate
-- is anchored again as it is.
pub canonicalize_citation_stable :
    (files : List FileText) (c d : LensCandidate) (corrected : Bool)
    → canonicalize_citation files c ≡ anchored d corrected
    → IsSpread (locate_citation files c.citation_snippet)
    → canonicalize_citation files d ≡ anchored d false
unfolding canonicalize_citation anchor
canonicalize_citation_stable files c d corrected h s =
    by_locations (locate_citation files c.citation_snippet) refl
  where
    again :
        (m : CitationLocation) {l : CitationLocation} {ls : List CitationLocation}
        → Holds m (l ∷ ls)
        → IsSpread (l ∷ ls)
        → All (IsOccurrence (needle_of c.citation_snippet) files) (l ∷ ls)
        → locate_citation files c.citation_snippet ≡ l ∷ ls
        → canonicalize_citation files (moved_to m c) ≡ anchored (moved_to m c) false
    again m {l} {ls} i t o e =
        let own = meets_self (needle_of c.citation_snippet) files m (All-Holds _ (l ∷ ls) m o i) in
        rw (e, canonicalize_citation) (anchored_again c m l ls (alone c m (l ∷ ls) i own t))

    by_locations :
        (ls : List CitationLocation)
        → locate_citation files c.citation_snippet ≡ ls
        → canonicalize_citation files d ≡ anchored d false
    by_locations [] e = cc (rw (e, canonicalize_citation, anchor) at h)
    by_locations (l ∷ ls) e = elim (Option-cases (select_location c (l ∷ ls))) [
      | inl y ↦ cc (rw (e, canonicalize_citation, anchor, y) at h)
      | inr (m, y) ↦
          let made : anchored (moved_to m c) (is_corrected m c) ≡ anchored d corrected =
            rw (e, canonicalize_citation, anchor, y) at h in
          let one_candidate : moved_to m c ≡ d = cc made in
          subst (λ x. canonicalize_citation files x ≡ anchored x false) one_candidate
            (again m (select_location-Holds c (l ∷ ls) m y) (subst IsSpread e s)
              (subst (All (IsOccurrence (needle_of c.citation_snippet) files)) e
                (locate_citation-IsOccurrence files c.citation_snippet))
              e)
    ]
