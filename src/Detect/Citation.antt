-- ===== src/Detect/Citation.antt =====
-- `locate_citation` of src/repoauditor/detect/retrieval/index.py, and `_same_file` and
-- `_canonicalize_citation` of src/repoauditor/detect/ensemble.py. Texts are characters. Of the correction in front of a rationale only
-- whether there is one is modelled.
use repoauditor.Prelude.{
  ℕ, zero, suc, ◌+◌, Bool, true, false, not, String, Option, none, some, List, [], ◌∷◌, ◌++◌, map,
  ◌==◌, leb, ◌&&◌, ◌||◌, if◌then◌else◌, filter_by, length, drop, any,
}
use repoauditor.Prelude.Ints.{ℤ, pos, int_leb, int_eq}
use repoauditor.Matching.Cwe.{codes, text_eq}
use repoauditor.Store.{Severity}

pub record CitationLocation : Type 0 where
  pub file : String
  pub line_start : ℕ
  pub line_end : ℕ

-- What a lens raised, before any bound is checked: lines and confidence may be below zero. A
-- confidence is in millionths; one that is not a number is not modelled.
pub record LensCandidate : Type 0 where
  pub title : String
  pub file : String
  pub line_start : ℤ
  pub line_end : ℤ
  pub citation_snippet : String
  pub severity : Severity
  pub confidence : ℤ
  pub trust_boundary_ref : Option String
  pub rationale : Option String

-- A file that the index holds, in the order of the names.
pub record FileText : Type 0 where
  pub file : String
  pub text : List ℕ

-- The white space of `str.strip`: the code points for which `str.isspace` holds.
abbrev is_space : ℕ → Bool
is_space c =
    ((leb 9 c && leb c 13) || (leb 28 c && leb c 32))
    || (any (λ d. c == d) (133 ∷ 160 ∷ 5760 ∷ 8232 ∷ 8233 ∷ 8239 ∷ 8287 ∷ 12288 ∷ [])
        || (leb 8192 c && leb c 8202))

abbrev lstripped : List ℕ → List ℕ
lstripped [] = []
lstripped (c ∷ cs) = let rest = lstripped cs in if is_space c then rest else c ∷ cs

-- `rstrip`: a character stays if one after it does, or it is no space.
abbrev rstripped : List ℕ → List ℕ
rstripped [] = []
rstripped (c ∷ cs) = elim (rstripped cs) [
  | [] ↦ if is_space c then [] else c ∷ []
  | d ∷ ds ↦ c ∷ d ∷ ds
]

-- `replace("\r\n", "\n").replace("\r", "\n")`.
abbrev newlines : List ℕ → List ℕ
newlines [] = []
newlines (c ∷ cs) = after c (newlines cs) cs
  where
    after : ℕ → List ℕ → List ℕ → List ℕ
    after c rest [] = (if c == 13 then 10 else c) ∷ rest
    after c rest (d ∷ ds) = if c == 13 then (if d == 10 then rest else 10 ∷ rest) else c ∷ rest

abbrev pub needle_of : String → List ℕ
needle_of citation = newlines (rstripped (lstripped (codes citation)))

abbrev pub starts_with : List ℕ → List ℕ → Bool
starts_with [] t = true
starts_with (p ∷ ps) [] = false
starts_with (p ∷ ps) (c ∷ t) = p == c && starts_with ps t

abbrev pub count_newlines : List ℕ → ℕ
count_newlines [] = 0
count_newlines (c ∷ cs) = if c == 10 then suc (count_newlines cs) else count_newlines cs

-- The search through one text, at a line: after an occurrence it goes on behind it, `skip`
-- characters on.
abbrev pub occurrences : List ℕ → List ℕ → (file : String) → (line skip : ℕ) → List CitationLocation
occurrences needle [] file line skip = []
occurrences needle (c ∷ cs) file line (suc skip) =
    occurrences needle cs file (if c == 10 then suc line else line) skip
occurrences needle (c ∷ cs) file line zero =
    let next = if c == 10 then suc line else line in
    let missed = occurrences needle cs file next zero in
    let found = occurrences needle cs file next (length (drop 1 needle)) in
    if starts_with needle (c ∷ cs)
    then record { file = file; line_start = line; line_end = line + count_newlines needle } ∷ found
    else missed

abbrev pub locate_in : List ℕ → List FileText → List CitationLocation
locate_in needle [] = []
locate_in needle (f ∷ fs) = occurrences needle f.text f.file 1 0 ++ locate_in needle fs

unfoldable pub locate_citation : List FileText → String → List CitationLocation
locate_citation files citation = elim (needle_of citation) [
  | [] ↦ []
  | c ∷ cs ↦ locate_in (c ∷ cs) files
]

abbrev slashes : List ℕ → List ℕ
slashes = map (λ c. if c == 92 then b'/' else c)

abbrev ends_with : List ℕ → List ℕ → Bool
ends_with t [] = text_eq t []
ends_with t (c ∷ s) = text_eq t (c ∷ s) || ends_with t s

unfoldable pub same_file : String → String → Bool
same_file candidate actual =
    let c = slashes (codes candidate) in
    let a = slashes (codes actual) in
    text_eq c a || (ends_with (b'/' ∷ a) c || ends_with (b'/' ∷ c) a)

abbrev pub declared_in : LensCandidate → List CitationLocation → List CitationLocation
declared_in c = filter_by (λ l. same_file c.file l.file)

abbrev pub overlapping_in : LensCandidate → List CitationLocation → List CitationLocation
overlapping_in c =
    filter_by (λ l. int_leb (pos l.line_start) c.line_end && int_leb c.line_start (pos l.line_end))

pub data CitationError : Type 0 where
  absent : CitationError
  ambiguous : ℕ → CitationError

pub data Anchored : Type 0 where
  anchored : LensCandidate → (corrected : Bool) → Anchored
  rejected : CitationError → Anchored

abbrev pub only : List CitationLocation → Option CitationLocation
only [] = none
only (l ∷ []) = some l
only (l ∷ m ∷ ls) = none

-- The location that a citation selects: the one that overlaps the declared lines, the one in the
-- declared file, or the one there is.
unfoldable pub select_location : LensCandidate → List CitationLocation → Option CitationLocation
select_location c locations =
    let declared = declared_in c locations in
    elim (only (overlapping_in c declared)) [
      | some l ↦ some l
      | none ↦ elim (only declared) [ some l ↦ some l | none ↦ only locations ]
    ]

abbrev pub moved_to : CitationLocation → LensCandidate → LensCandidate
moved_to l c = record c { file = l.file; line_start = pos l.line_start; line_end = pos l.line_end }

-- Whether the rationale of an anchored candidate names a correction.
abbrev pub is_corrected : CitationLocation → LensCandidate → Bool
is_corrected l c =
    not (same_file c.file l.file)
    || (not (int_eq c.line_start (pos l.line_start)) || not (int_eq c.line_end (pos l.line_end)))

-- A candidate is anchored, or the error of the one failure that is logged is given.
unfoldable pub anchor : LensCandidate → List CitationLocation → Anchored
unfolding select_location
anchor c [] = rejected absent
anchor c (l ∷ ls) = elim (select_location c (l ∷ ls)) [
  | some s ↦ anchored (moved_to s c) (is_corrected s c)
  | none ↦ rejected (ambiguous (length (l ∷ ls)))
]

unfoldable pub canonicalize_citation : List FileText → LensCandidate → Anchored
unfolding locate_citation anchor
canonicalize_citation files c = anchor c (locate_citation files c.citation_snippet)
