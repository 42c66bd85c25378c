-- ===== src/Matching/Cwe.antt =====
-- `_CWE_RE` and `cwes_of` of src/repoauditor/matching.py: the expression cwe[-_ ]?(\d+), ignoring
-- case, as an automaton that reads a text once. Digits are the ASCII digits.
use Prim.Native.Char.{code}
use repoauditor.Prelude.{
  ℕ, ◌+◌, Bool, true, false, String, Option, none, some, List, [], ◌∷◌, ◌++◌, leb, ◌==◌,
  if◌then◌else◌, ◌&&◌, ◌||◌, any,
}
use repoauditor.Store.{Finding}

abbrev pub codes : String → List ℕ
codes String.[] = []
codes (String.◌∷◌ c s) = code c ∷ codes s

abbrev pub text_eq : List ℕ → List ℕ → Bool
text_eq [] [] = true
text_eq [] (b ∷ bs) = false
text_eq (a ∷ as') [] = false
text_eq (a ∷ as') (b ∷ bs) = a == b && text_eq as' bs

is_letter : ℕ → ℕ → Bool
is_letter lower c = c == lower || c + 32 == lower

is_digit : ℕ → Bool
is_digit c = leb b'0' c && leb c b'9'

is_separator : ℕ → Bool
is_separator c = c == b'-' || c == b'_' || c == b' '

-- How much of the expression the last characters match.
pub data Progress : Type 0 where
  nothing seen_c seen_cw seen_cwe separated : Progress
  number : List ℕ → Progress

restart : ℕ → Progress
restart c = if is_letter b'c' c then seen_c else nothing

digit_or_restart : ℕ → Progress
digit_or_restart c = if is_digit c then number (c ∷ []) else restart c

advance : Progress → ℕ → Progress
advance nothing c = restart c
advance seen_c c = if is_letter b'w' c then seen_cw else restart c
advance seen_cw c = if is_letter b'e' c then seen_cwe else restart c
advance seen_cwe c = if is_separator c then separated else digit_or_restart c
advance separated c = digit_or_restart c
advance (number ds) c = if is_digit c then number (ds ++ c ∷ []) else restart c

-- The group that a match leaves behind once `c`, the next character, is not one of its digits.
finished : Progress → ℕ → List (List ℕ)
finished (number ds) c = if is_digit c then [] else ds ∷ []
finished _ c = []

at_end : Progress → List (List ℕ)
at_end (number ds) = ds ∷ []
at_end _ = []

scan : Progress → List ℕ → List (List ℕ)
scan p [] = at_end p
scan p (c ∷ cs) = finished p c ++ scan (advance p c) cs

abbrev text_or_empty : Option String → List ℕ
text_or_empty none = []
text_or_empty (some s) = codes s

unfoldable pub cwes_of : Finding → List (List ℕ)
unfolding scan at_end finished advance digit_or_restart restart is_letter is_digit is_separator
cwes_of f = scan nothing (codes f.title ++ (b' ' ∷ text_or_empty f.description))

-- `A & B` and `bool(A & B)` on sets of classes.
abbrev pub shared : List (List ℕ) → List (List ℕ) → List (List ℕ)
shared [] ys = []
shared (x ∷ xs) ys = let rest = shared xs ys in if any (text_eq x) ys then x ∷ rest else rest

abbrev pub nonempty {ℓ} : {A : Type ℓ} → List A → Bool
nonempty [] = false
nonempty (x ∷ xs) = true
