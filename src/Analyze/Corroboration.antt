-- ===== src/Analyze/Corroboration.antt =====
-- src/repoauditor/analyze/corroboration.py and `add_corroboration` of src/repoauditor/store/db.py. A
-- score has four decimals and is given in ten-thousandths; it is rounded from the exact quotient,
-- half to even. The texts of notes are not modelled.
use repoauditor.Prelude.{
  ℕ, suc, ◌-◌, ◌*◌, ◌/◌, ◌%◌, Bool, not, String, Option, none, some, List, [], ◌∷◌, ◌++◌, map, ◌==◌,
  ltb, ◌&&◌, ◌||◌, option_eq, if◌then◌else◌, filter_by, elem, any, length, flatten,
}
use repoauditor.Prelude.Sort.{sorted}
use repoauditor.Matching.Cwe.{codes}
use repoauditor.Detect.Planning.{text_le}
use repoauditor.Prelude.Rows.{first_where, update_where}
use repoauditor.Store.{Finding, killed, status_eq}
use repoauditor.Matching.Defs.{
  SourceRef, type_eq, source_eq, is_tool, is_lens, source_of, Basis, same_issue, uncorroborated,
  Divergence, MatchGroup, representative, distinct_sources, find_matches,
}

-- `round` of a quotient, half to even.
abbrev pub rounded : ℕ → ℕ → ℕ
rounded a b =
    let q = a / b in
    let r = a % b in if ltb b (2 * r) || ((2 * r == b) && (q % 2 == 1)) then suc q else q

-- diversity * (1 - 1 / n), where diversity is 1 for a tool and a lens and a half otherwise.
unfoldable pub agreement_score : List SourceRef → ℕ
agreement_score sources =
    let n = length sources in
    if ltb n 2
    then 0
    else if any is_tool sources && any is_lens sources
    then rounded (10000 * (n - 1)) n
    else rounded (10000 * (n - 1)) (2 * n)

-- A row of the table `corroboration`; no basis is "transitive-via-group".
pub record AgreementRow : Type 0 where
  pub finding_id : Option ℕ
  pub source : SourceRef
  pub score : Option ℕ
  pub match_basis : Option (List Basis)

unfoldable pub basis_for : Finding → Finding → Option (List Basis)
unfolding same_issue
basis_for rep member =
    let decision = same_issue rep member in if decision.matched then some decision.basis else none

-- The loop over the members, with the sources seen.
unfoldable pub agreement_rows :
    (rep : Finding) (score : ℕ) → List SourceRef → List Finding → List AgreementRow
unfolding source_of basis_for
agreement_rows rep score seen [] = []
agreement_rows rep score seen (m ∷ ms) =
    let src = source_of m in
    let rest = agreement_rows rep score seen ms in
    let more = agreement_rows rep score (src ∷ seen) ms in
    if source_eq src (source_of rep) || elem source_eq src seen
    then rest
    else record {
      finding_id = rep.id;
      source = src;
      score = some score;
      match_basis = basis_for rep m;
    }
      ∷ more

pub record CorroborationResult : Type 0 where
  pub representative_id : Option ℕ
  pub representative_title : String
  pub score : ℕ
  pub sources : List SourceRef
  pub member_finding_ids : List ℕ
  pub corroborations : List AgreementRow

-- What a group adds: a result, or a divergence for each member of a lone source.
pub data GroupOutcome : Type 0 where
  corroborated : CorroborationResult → GroupOutcome
  lone : List Divergence → GroupOutcome

abbrev pub uncorroborated_of : Finding → Divergence
uncorroborated_of f = record { kind = uncorroborated; finding_ids = f.id ∷ [] }

-- The order of (source_type, source_name), where "lens" comes before "tool".
abbrev pub source_le : SourceRef → SourceRef → Bool
source_le a b =
    (is_lens a && is_tool b)
    || (type_eq a.source_type b.source_type && text_le (codes a.source_name) (codes b.source_name))

-- The ids that are not missing.
abbrev pub known_ids : List Finding → List ℕ
known_ids [] = []
known_ids (f ∷ fs) = elim f.id [ none ↦ known_ids fs | some i ↦ i ∷ known_ids fs ]

unfoldable pub corroborate_group : Finding → List Finding → GroupOutcome
unfolding agreement_score agreement_rows
corroborate_group f fs =
    let sources = distinct_sources (f ∷ fs) in
    let rep = representative f fs in
    let score = agreement_score sources in
    if ltb (length sources) 2
    then lone (map uncorroborated_of (f ∷ fs))
    else corroborated (record {
      representative_id = rep.id;
      representative_title = rep.title;
      score = score;
      sources = sorted source_le sources;
      member_finding_ids = known_ids (f ∷ fs);
      corroborations = agreement_rows rep score [] (f ∷ fs);
    })

abbrev pub Agreement : Type 0
Agreement = List CorroborationResult × List Divergence

-- A match group is never empty.
abbrev pub add_group : MatchGroup → Agreement → Agreement
add_group [] (rs, ds) = (rs, ds)
add_group (f ∷ fs) (rs, ds) = elim (corroborate_group f fs) [
  | corroborated r ↦ (rs ++ r ∷ [], ds)
  | lone more ↦ (rs, ds ++ more)
]

abbrev pub add_groups : List MatchGroup → Agreement → Agreement
add_groups [] a = a
add_groups (g ∷ gs) a = add_groups gs (add_group g a)

abbrev coalesce {ℓ} : {A : Type ℓ} → Option A → Option A → Option A
coalesce none old = old
coalesce (some a) old = some a

abbrev same_row : AgreementRow → AgreementRow → Bool
same_row a r = option_eq (λ x y. x == y) r.finding_id a.finding_id && source_eq r.source a.source

-- `ON CONFLICT (finding_id, source_type, source_name) DO UPDATE`.
unfoldable pub add_corroboration : AgreementRow → List AgreementRow → List AgreementRow
add_corroboration a rows = elim (first_where (same_row a) rows) [
  | none ↦ rows ++ a ∷ []
  | some _ ↦
      update_where (same_row a)
        (λ r. record r {
          score = coalesce a.score r.score;
          match_basis = coalesce a.match_basis r.match_basis;
        })
        rows
]

abbrev pub add_corroborations : List AgreementRow → List AgreementRow → List AgreementRow
add_corroborations [] rows = rows
add_corroborations (a ∷ as') rows = add_corroborations as' (add_corroboration a rows)

-- The results and divergences for the findings of a repository, and the table of corroborations.
unfoldable pub corroborate :
    (persist : Bool) → List Finding → List AgreementRow → Agreement × List AgreementRow
unfolding find_matches corroborate_group add_corroboration
corroborate persist all_findings rows =
    let findings = filter_by (λ f. not (status_eq f.falsification_status killed)) all_findings in
    let m = find_matches findings in
    let (results, divergences) = add_groups m.groups ([], m.divergences) in
    let written = flatten (map (λ r. r.corroborations) results) in
    ((results, divergences), if persist then add_corroborations written rows else rows)
