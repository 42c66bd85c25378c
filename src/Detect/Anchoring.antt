-- ===== src/Detect/Anchoring.antt =====
-- Where `_canonicalize_citation` of src/repoauditor/detect/ensemble.py anchors a citation.
use repoauditor.Prelude.{
  String, ℕ, zero, suc, ◌+◌, ◌≤◌, ◌≡◌, refl, sym, ap, ◌∙◌, subst, Bool, true, some, List, [], ◌∷◌,
  ◌++◌, append_assoc, ◌==◌, if◌then◌else◌, filter_by, length, drop, All, All-append, arith, inl,
  inr, Bool-cases, Option-cases,
}
use repoauditor.Prelude.Ints.{pos}
use repoauditor.Prelude.Rows.{Holds}
use repoauditor.Detect.Search.{IsAbsent, IsUnclear, IsChosen}
use repoauditor.Detect.Citation.{
  CitationLocation, LensCandidate, FileText, needle_of, starts_with, count_newlines, occurrences,
  locate_in, locate_citation, declared_in, overlapping_in, absent, ambiguous, Anchored, anchored,
  rejected, only, select_location, is_corrected,
}

-- A location is where a text has the needle, counted in lines from 1.
pub record IsOccurrence (needle : List ℕ) (files : List FileText) (l : CitationLocation)
    : Type 0 where
  pub source : FileText
  pub indexed : Holds source files
  pub before : List ℕ
  pub after : List ℕ
  pub verbatim : source.text ≡ before ++ (needle ++ after)
  pub same_name : l.file ≡ source.file
  pub starts : l.line_start ≡ suc (count_newlines before)
  pub ends : l.line_end ≡ l.line_start + count_newlines needle

starts_with-append :
    (needle t : List ℕ) → starts_with needle t ≡ true → (after : List ℕ) × (t ≡ needle ++ after)
starts_with-append [] t h = (t, refl)
starts_with-append (p ∷ ps) [] h = cc
starts_with-append (p ∷ ps) (c ∷ t) h =
    let (after, e) = starts_with-append ps t (ground arith) in
    let same : p ≡ c = ground arith in (after, rw (e, same) refl)

count_newlines-snoc :
    (before : List ℕ) (c : ℕ)
    → count_newlines (before ++ c ∷ [])
      ≡ (if c == 10 then suc (count_newlines before) else count_newlines before)
count_newlines-snoc [] c = refl
count_newlines-snoc (b ∷ before) c = ground (arith, count_newlines-snoc before c)

-- The text before the search and its line, one character on.
one_on :
    (c : ℕ) (cs before : List ℕ) (f : FileText) (line : ℕ)
    → f.text ≡ before ++ c ∷ cs
    → line ≡ suc (count_newlines before)
    → (f.text ≡ (before ++ c ∷ []) ++ cs)
      × ((if c == 10 then suc line else line) ≡ suc (count_newlines (before ++ c ∷ [])))
one_on c cs before f line e n =
    let h = count_newlines-snoc before c in
    (e ∙ sym (append_assoc before (c ∷ []) cs), ground arith)

occurrences-IsOccurrence :
    (needle cs before : List ℕ) (files : List FileText) (f : FileText) (line skip : ℕ)
    → Holds f files
    → f.text ≡ before ++ cs
    → line ≡ suc (count_newlines before)
    → All (IsOccurrence needle files) (occurrences needle cs f.file line skip)
occurrences-IsOccurrence needle [] before files f line skip i e n = tt
occurrences-IsOccurrence needle (c ∷ cs) before files f line (suc skip) i e n =
    let (text_on, line_on) = one_on c cs before f line e n in
    occurrences-IsOccurrence needle cs (before ++ c ∷ []) files f _ skip i text_on line_on
occurrences-IsOccurrence needle (c ∷ cs) before files f line zero i e n =
    let (text_on, line_on) = one_on c cs before f line e n in
    let on = λ (k : ℕ).
      occurrences-IsOccurrence needle cs (before ++ c ∷ []) files f
        (if c == 10 then suc line else line) k i text_on line_on in
    elim (Bool-cases (starts_with needle (c ∷ cs))) [
      | inl y ↦
          let (after, t) = starts_with-append needle (c ∷ cs) y in
          rw (occurrences, y)
            (
              record {
                source = f;
                indexed = i;
                before = before;
                after = after;
                verbatim = e ∙ ap (λ l. before ++ l) t;
                same_name = refl;
                starts = n;
                ends = refl;
              },
              on (length (drop 1 needle)),
            )
      | inr y ↦ rw (occurrences, y) (on zero)
    ]

locate_in-IsOccurrence :
    (needle : List ℕ) (files fs : List FileText)
    → ((f : FileText) → Holds f fs → Holds f files)
    → All (IsOccurrence needle files) (locate_in needle fs)
locate_in-IsOccurrence needle files [] h = tt
locate_in-IsOccurrence needle files (f ∷ fs) h =
    All-append (IsOccurrence needle files) (occurrences needle f.text f.file 1 0)
      (locate_in needle fs)
      (occurrences-IsOccurrence needle f.text [] files f 1 0 (h f (inl refl)) refl refl)
      (locate_in-IsOccurrence needle files fs (λ g m. h g (inr m)))

pub locate_citation-IsOccurrence :
    (files : List FileText) (citation : String)
    → All (IsOccurrence (needle_of citation) files) (locate_citation files citation)
unfolding locate_citation
locate_citation-IsOccurrence files citation = by_needle (needle_of citation) refl
  where
    by_needle :
        (n : List ℕ)
        → needle_of citation ≡ n
        → All (IsOccurrence (needle_of citation) files) (locate_citation files citation)
    by_needle [] e = rw (e, locate_citation) tt
    by_needle (c ∷ cs) e =
        rw (e, locate_citation) (locate_in-IsOccurrence (c ∷ cs) files files (λ f m. m))

only-Holds :
    (q : CitationLocation → Bool) (xs : List CitationLocation) (l : CitationLocation)
    → only (filter_by q xs) ≡ some l
    → Holds l xs × (q l ≡ true)
only-Holds q [] l h = cc
only-Holds q (x ∷ xs) l h = elim (Bool-cases (q x)) [
  | inl e ↦ alone (filter_by q xs) (rw e at h) e
  | inr e ↦ let (m, y) = only-Holds q xs l (rw e at h) in (inr m, y)
]
  where
    alone :
        (rest : List CitationLocation)
        → only (x ∷ rest) ≡ some l
        → q x ≡ true
        → Holds l (x ∷ xs) × (q l ≡ true)
    alone [] k e = let same : x ≡ l = cc k in (inl (sym same), subst (λ y. q y ≡ true) same e)
    alone (y ∷ rest) k e = cc

Holds-filter_by :
    (q : CitationLocation → Bool) (xs : List CitationLocation) (l : CitationLocation)
    → Holds l (filter_by q xs)
    → Holds l xs
Holds-filter_by q [] l h = h
Holds-filter_by q (x ∷ xs) l h = elim (Bool-cases (q x)) [
  | inl e ↦ elim (rw e at h) [ inl same ↦ inl same | inr m ↦ inr (Holds-filter_by q xs l m) ]
  | inr e ↦ inr (Holds-filter_by q xs l (rw e at h))
]

pub select_location-Holds :
    (c : LensCandidate) (locations : List CitationLocation) (l : CitationLocation)
    → select_location c locations ≡ some l
    → Holds l locations
unfolding select_location
select_location-Holds c locations l h =
    let declared = declared_in c locations in
    elim (Option-cases (only (overlapping_in c declared))) [
      | inr (m, e) ↦
          let found : some m ≡ some l = rw (e, select_location) at h in
          let same : m ≡ l = cc found in
          let (i, _) = only-Holds _ declared m e in
          subst (λ y. Holds y locations) same (Holds-filter_by _ locations m i)
      | inl e ↦ elim (Option-cases (only declared)) [
        | inr (m, e') ↦
            let found : some m ≡ some l = rw (e, e', select_location) at h in
            let same : m ≡ l = cc found in
            let (i, _) = only-Holds _ locations m e' in subst (λ y. Holds y locations) same i
        | inl e' ↦
            let found : only locations ≡ some l = rw (e, e', select_location) at h in
            only-member locations found
      ]
    ]
  where
    only-member : (xs : List CitationLocation) → only xs ≡ some l → Holds l xs
    only-member [] h = cc
    only-member (x ∷ []) h = let same : x ≡ l = cc h in inl (sym same)
    only-member (x ∷ y ∷ xs) h = cc

pub All-Holds :
    (P : CitationLocation → Type 0) (xs : List CitationLocation) (l : CitationLocation)
    → All P xs
    → Holds l xs
    → P l
All-Holds P [] l a h = elim h [ ]
All-Holds P (x ∷ xs) l a (inl e) = subst P (sym e) a.0
All-Holds P (x ∷ xs) l a (inr m) = All-Holds P xs l a.1 m

-- What the outcome for a candidate says of the indexed files.
abbrev pub Traced : List FileText → LensCandidate → Anchored → Type 0
Traced files c (anchored d corrected) =
    (l : CitationLocation) × IsOccurrence (needle_of c.citation_snippet) files l
    × IsChosen c (locate_citation files c.citation_snippet) l
    × (d ≡ record c { file = l.file; line_start = pos l.line_start; line_end = pos l.line_end })
    × (corrected ≡ is_corrected l c)
Traced files c (rejected absent) = IsAbsent (needle_of c.citation_snippet) files
Traced files c (rejected (ambiguous n)) =
    (n ≡ length (locate_citation files c.citation_snippet))
    × (2 ≤ n)
    × All (IsOccurrence (needle_of c.citation_snippet) files)
        (locate_citation files c.citation_snippet)
    × IsUnclear c (locate_citation files c.citation_snippet)
