-- ===== src/Matching/Defs.antt =====
-- src/repoauditor/matching.py: `same_issue`, `find_matches` and what a group answers.
use repoauditor.Prelude.{
  ℕ, suc, ◌*◌, Bool, true, false, not, String, Option, none, some, List, [], ◌∷◌, ◌++◌, map, leb,
  ◌==◌, if◌then◌else◌, ◌&&◌, ◌||◌, str_eq, option_eq, is_some, any, length, distinct, filter_by,
  max_by,
}
use repoauditor.Store.{Finding, SourceType, lens, tool}
use repoauditor.Matching.Cwe.{cwes_of, shared, nonempty}
use repoauditor.Matching.Forest.{find, union, start}

pub record SourceRef : Type 0 where
  pub source_type : SourceType
  pub source_name : String

abbrev pub type_eq : SourceType → SourceType → Bool
type_eq lens lens = true
type_eq tool tool = true
type_eq _ _ = false

abbrev pub source_eq : SourceRef → SourceRef → Bool
source_eq a b = type_eq a.source_type b.source_type && str_eq a.source_name b.source_name

-- `name or "unknown"`: an empty name counts as none.
abbrev lens_name : Option String → String
lens_name none = "unknown"
lens_name (some s) = if str_eq s "" then "unknown" else s

abbrev source_from : Option String → Option String → SourceRef
source_from (some t) l = record { source_type = tool; source_name = t }
source_from none l = record { source_type = lens; source_name = lens_name l }

unfoldable pub source_of : Finding → SourceRef
source_of f = source_from f.source_tool f.source_lens

abbrev pub is_tool : SourceRef → Bool
is_tool s = type_eq s.source_type tool

abbrev pub is_lens : SourceRef → Bool
is_lens s = type_eq s.source_type lens

unfoldable pub has_independent_corroboration : List SourceRef → Bool
has_independent_corroboration sources =
    let tools = distinct str_eq (map (λ s. s.source_name) (filter_by is_tool sources)) in
    let has_lens = any is_lens sources in leb 2 (length tools) || (nonempty tools && has_lens)

unfoldable pub line_overlap : Finding → Finding → Bool
line_overlap a b =
    str_eq a.file b.file && leb a.line_start b.line_end && leb b.line_start a.line_end

pub data Basis : Type 0 where
  natural_identity natural_identity_conflict cwe_conflict overlapping_lines entity trust_boundary :
      Basis
  cwe : List (List ℕ) → Basis

pub record MatchDecision : Type 0 where
  pub matched : Bool
  pub basis : List Basis
  pub divergence : Bool

abbrev when {ℓ} : {A : Type ℓ} → Bool → A → List A
when b x = if b then x ∷ [] else []

-- `x is not None and x == y`.
abbrev pub same_id : Option ℕ → Option ℕ → Bool
same_id x y = is_some x && option_eq ◌==◌ x y

-- The comparison of two findings without a natural identity.
unfoldable pub same_unkeyed : Finding → Finding → MatchDecision
same_unkeyed a b =
    let cw_a = cwes_of a in
    let cw_b = cwes_of b in
    let shared_cwe = shared cw_a cw_b in
    let both_classified = nonempty cw_a && nonempty cw_b in
    let same_entity = same_id a.entity_id b.entity_id in
    let same_boundary = same_id a.trust_boundary_id b.trust_boundary_id in
    if both_classified && not (nonempty shared_cwe)
    then record { matched = false; basis = cwe_conflict ∷ []; divergence = true }
    else if line_overlap a b
    then record {
      matched = true;
      basis =
          overlapping_lines
          ∷ (when (nonempty shared_cwe) (cwe shared_cwe)
              ++ (when same_entity entity ++ when same_boundary trust_boundary));
      divergence = false;
    }
    else if nonempty shared_cwe && same_entity
    then record { matched = true; basis = cwe shared_cwe ∷ entity ∷ []; divergence = false }
    else record { matched = false; basis = []; divergence = false }

unfoldable pub same_issue : Finding → Finding → MatchDecision
same_issue a b =
    if is_some a.identity_key || is_some b.identity_key
    then (if is_some a.identity_key && option_eq str_eq a.identity_key b.identity_key
        then record { matched = true; basis = natural_identity ∷ []; divergence = false }
        else record { matched = false; basis = natural_identity_conflict ∷ []; divergence = false })
    else same_unkeyed a b

pub data Kind : Type 0 where
  cwe_conflict_kind uncorroborated : Kind

pub record Divergence : Type 0 where
  pub kind : Kind
  pub finding_ids : List (Option ℕ)

-- A match group is the list of its findings, which is never empty.
abbrev pub MatchGroup : Type 0
MatchGroup = List Finding

abbrev pub confidence_of : Finding → ℕ
confidence_of f = f.confidence

-- `representative` of a group `f ∷ fs`.
abbrev pub representative : Finding → List Finding → Finding
representative f fs = max_by confidence_of f fs

abbrev pub distinct_sources : MatchGroup → List SourceRef
distinct_sources g = distinct source_eq (map source_of g)

pub record MatchResult : Type 0 where
  pub groups : List MatchGroup
  pub divergences : List Divergence

-- The local variables of the pairwise loop.
pub record Links : Type 0 where
  pub parent : List ℕ
  pub divergences : List Divergence

unfoldable pub visit_pair : ℕ → ℕ → ℕ → Finding → Finding → Links → Links
visit_pair fuel i j a b s =
    let decision = same_issue a b in
    if decision.matched
    then record s { parent = union fuel s.parent i j }
    else if decision.divergence
    then record s {
      divergences =
          s.divergences
          ++ (record { kind = cwe_conflict_kind; finding_ids = a.id ∷ b.id ∷ [] } ∷ []);
    }
    else s

-- `for j in range(i + 1, len(findings))`, over the findings from place `j` on.
unfoldable pub link_rest : ℕ → ℕ → Finding → ℕ → List Finding → Links → Links
link_rest fuel i a j [] s = s
link_rest fuel i a j (b ∷ bs) s = link_rest fuel i a (suc j) bs (visit_pair fuel i j a b s)

-- `for i in range(len(findings))`, over the findings from place `i` on.
unfoldable pub link_all : ℕ → ℕ → List Finding → Links → Links
link_all fuel i [] s = s
link_all fuel i (a ∷ rest) s = link_all fuel (suc i) rest (link_rest fuel i a (suc i) rest s)

-- A dict from roots to clusters, in the order of insertion.
abbrev pub Clusters : Type 0
Clusters = List (ℕ × MatchGroup)

-- `clusters.setdefault(root, []).append(finding)`.
unfoldable pub add_to : ℕ → Finding → Clusters → Clusters
add_to r f [] = (r, f ∷ []) ∷ []
add_to r f ((k, ms) ∷ cs) =
    let rest = add_to r f cs in if k == r then (k, ms ++ f ∷ []) ∷ cs else (k, ms) ∷ rest

unfoldable pub cluster_all : ℕ → List ℕ → ℕ → List Finding → Clusters → Clusters
cluster_all fuel p i [] cs = cs
cluster_all fuel p i (f ∷ fs) cs =
    let (r, p') = find fuel p i in cluster_all fuel p' (suc i) fs (add_to r f cs)

abbrev pub values : Clusters → List MatchGroup
values = map (λ c. c.1)

-- No path of the forest is longer than the number of unions made, and fewer than n² are made.
abbrev pub fuel_for : List Finding → ℕ
fuel_for fs = suc (length fs) * suc (length fs)

unfoldable pub linked : List Finding → Links
unfolding link_all link_rest visit_pair
linked fs = link_all (fuel_for fs) 0 fs (record { parent = start (length fs); divergences = [] })

unfoldable pub find_matches : List Finding → MatchResult
unfolding linked cluster_all add_to
find_matches fs =
    let s = linked fs in
    record {
      groups = values (cluster_all (fuel_for fs) s.parent 0 fs []);
      divergences = s.divergences;
    }
