-- ===== src/Falsify/Witness.antt =====
-- src/repoauditor/falsify/counterexample.py, and `_verify_counterexample` of challenger.py. The
-- regular expressions run on Python's engine, which is a parameter.
use repoauditor.Prelude.{
  ℕ, Bool, true, false, not, String, Option, none, some, List, ◌≡◌, ◌==◌, ◌||◌, if◌then◌else◌,
  filter_by, arith, ◌↔◌,
}
use repoauditor.Matching.Cwe.{nonempty}

pub data WitnessStatus : Type 0 where
  verified_guard_miss refuted_guard_match verification_incomplete : WitnessStatus

pub record RegexGuardWitness : Type 0 where
  pub input : String
  pub control_expression : String

pub record ParsedGuard : Type 0 where
  pub pattern : String
  pub flags : List ℕ

-- What the checker uses of Python: the search for a guard in an expression, the search with a
-- pattern (`none` is `re.error`), and `text in evidence`.
pub record Engine : Type 0 where
  pub find_guard : String → Option ParsedGuard
  pub search : ParsedGuard → String → Option Bool
  pub occurs : String → String → Bool

abbrev is_supported : ℕ → Bool
is_supported c = c == b'i' || (c == b'm' || c == b's')

abbrev pub unsupported : List ℕ → List ℕ
unsupported = filter_by (λ c. not (is_supported c))

abbrev status_of_search : Option Bool → WitnessStatus
status_of_search none = verification_incomplete
status_of_search (some true) = refuted_guard_match
status_of_search (some false) = verified_guard_miss

-- `verify_javascript_regex_guard_witness`, its status.
unfoldable pub verify_witness : Engine → RegexGuardWitness → WitnessStatus
verify_witness e w = elim (e.find_guard w.control_expression) [
  | none ↦ verification_incomplete
  | some g ↦
      if nonempty (unsupported g.flags)
      then verification_incomplete
      else status_of_search (e.search g w.input)
]

-- `_verify_counterexample`: whether a witness is required, the witness given and the evidence.
unfoldable pub verify_counterexample :
    Engine → Bool → Option RegexGuardWitness → String → Option WitnessStatus
unfolding verify_witness
verify_counterexample e required none evidence =
    if required then some verification_incomplete else none
verify_counterexample e required (some w) evidence =
    if e.occurs w.control_expression evidence
    then some (verify_witness e w)
    else some verification_incomplete

-- A witness is verified exactly if its expression holds a guard with supported flags whose pattern
-- the engine runs and does not find in the input.
pub verify_witness_iff :
    (e : Engine) (w : RegexGuardWitness)
    → (verify_witness e w ≡ verified_guard_miss) ↔ (
        (g : ParsedGuard) × (e.find_guard w.control_expression ≡ some g)
        × (nonempty (unsupported g.flags) ≡ false)
        × (e.search g w.input ≡ some false))
unfolding verify_witness
verify_witness_iff e w = (λ h. ground arith, λ (g, p, q, r). ground arith)
