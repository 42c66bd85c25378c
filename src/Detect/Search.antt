-- ===== src/Detect/Search.antt =====
-- That the search of `locate_citation` in src/repoauditor/detect/retrieval/index.py finds a snippet
-- wherever it stands, and what selects one of several places.
use repoauditor.Prelude.{
  String, ℕ, suc, ◌≡◌, ◌≢◌, ◌⊎◌, refl, ap, true, some, none, List, [], ◌∷◌, ◌++◌, ◌==◌,
  if◌then◌else◌, length, All, arith, inl, inr, Bool-cases, Option-cases,
}
use repoauditor.Detect.Citation.{
  CitationLocation, LensCandidate, FileText, needle_of, starts_with, occurrences, locate_in,
  locate_citation, only, declared_in, overlapping_in, select_location,
}

-- The snippet has no character but white space, or stands in the text of no indexed file.
abbrev pub IsAbsent : List ℕ → List FileText → Type 0
IsAbsent needle files =
    (needle ≡ []) ⊎ All (λ f. (before after : List ℕ) → f.text ≢ before ++ (needle ++ after)) files

starts_with_self : (p after : List ℕ) → starts_with p (p ++ after) ≡ true
starts_with_self [] after = refl
starts_with_self (c ∷ p) after =
    let e : (c == c) ≡ true = ground arith in rw e (starts_with_self p after)

-- A search that finds nothing has no occurrence before it.
occurrences_none :
    (c : ℕ) (needle before after : List ℕ) (file : String) (line : ℕ)
    → occurrences (c ∷ needle) (before ++ (c ∷ needle ++ after)) file line 0 ≢ []
occurrences_none c needle [] after file line h =
    let y = starts_with_self (c ∷ needle) after in cc (rw (occurrences, y) at h)
occurrences_none c needle (b ∷ before) after file line h =
    elim (Bool-cases (starts_with (c ∷ needle) (b ∷ before ++ (c ∷ needle ++ after)))) [
      | inl y ↦ cc (rw (occurrences, y) at h)
      | inr y ↦
          occurrences_none c needle before after file (if b == 10 then suc line else line)
            (rw (occurrences, y) at h)
    ]

append_none : (xs ys : List CitationLocation) → xs ++ ys ≡ [] → (xs ≡ []) × (ys ≡ [])
append_none [] ys h = (refl, h)
append_none (x ∷ xs) ys h = cc

locate_in_none :
    (c : ℕ) (needle : List ℕ) (files : List FileText)
    → locate_in (c ∷ needle) files ≡ []
    → All (λ f. (before after : List ℕ) → f.text ≢ before ++ (c ∷ needle ++ after)) files
locate_in_none c needle [] h = tt
locate_in_none c needle (g ∷ gs) h =
    let (here, rest) = append_none (occurrences (c ∷ needle) g.text g.file 1 0) _ h in
    (
      λ before after e. occurrences_none c needle before after g.file 1 (rw e at here),
      locate_in_none c needle gs rest,
    )

-- A citation without a location stands nowhere.
pub locate_citation-IsAbsent :
    (files : List FileText) (citation : String)
    → locate_citation files citation ≡ []
    → IsAbsent (needle_of citation) files
unfolding locate_citation
locate_citation-IsAbsent files citation h = by_needle (needle_of citation) refl
  where
    by_needle : (n : List ℕ) → needle_of citation ≡ n → IsAbsent n files
    by_needle [] e = inl refl
    by_needle (c ∷ cs) e = inr (locate_in_none c cs files (rw (e, locate_citation) at h))

only-some : (xs : List CitationLocation) (l : CitationLocation) → only xs ≡ some l → xs ≡ l ∷ []
only-some [] l h = cc
only-some (x ∷ []) l h = let same : x ≡ l = cc h in ap (λ y. y ∷ []) same
only-some (x ∷ y ∷ xs) l h = cc

only-none : (xs : List CitationLocation) → only xs ≡ none → length xs ≢ 1
only-none [] h e = cc
only-none (x ∷ []) h e = cc
only-none (x ∷ y ∷ xs) h e = omega (arith, e)

-- Neither the declared lines nor the declared file has just one of the locations.
abbrev pub IsUnclear : LensCandidate → List CitationLocation → Type 0
IsUnclear c ls =
    (length (overlapping_in c (declared_in c ls)) ≢ 1) × (length (declared_in c ls) ≢ 1)

-- The location is the only one that overlaps the declared lines in the declared file, else the
-- only one in the declared file, else the only one.
pub data IsChosen (c : LensCandidate) (ls : List CitationLocation) (l : CitationLocation)
    : Type 0 where
  by_lines : overlapping_in c (declared_in c ls) ≡ l ∷ [] → IsChosen c ls l
  by_file :
      length (overlapping_in c (declared_in c ls)) ≢ 1 → declared_in c ls ≡ l ∷ [] → IsChosen c ls l
  alone : IsUnclear c ls → ls ≡ l ∷ [] → IsChosen c ls l

-- What is selected is the location that the rules choose; nothing is selected when no rule does.
pub select_location_cases :
    (c : LensCandidate) (ls : List CitationLocation)
    → ((l : CitationLocation) × (select_location c ls ≡ some l) × IsChosen c ls l)
      ⊎ (select_location c ls ≡ none) × IsUnclear c ls × (length ls ≢ 1)
unfolding select_location
select_location_cases c ls =
    let declared = declared_in c ls in
    elim (Option-cases (only (overlapping_in c declared))) [
      | inr (l, e) ↦ inl (l, rw (e, select_location) refl, by_lines (only-some _ l e))
      | inl e ↦ elim (Option-cases (only declared)) [
        | inr (l, e') ↦
            inl (l, rw (e, e', select_location) refl, by_file (only-none _ e) (only-some _ l e'))
        | inl e' ↦
            let unclear : IsUnclear c ls = (only-none _ e, only-none _ e') in
            elim (Option-cases (only ls)) [
              | inr (l, e'') ↦
                  inl (l, rw (e, e', e'', select_location) refl, alone unclear (only-some ls l e''))
              | inl e'' ↦ inr (rw (e, e', e'', select_location) refl, unclear, only-none ls e'')
            ]
      ]
    ]
