-- ===== src/Examples/Groups.antt =====
-- Three findings matched: two on one place, one elsewhere.
use repoauditor.Prelude.{ℕ, ◌≡◌, ◌↔◌, ◌⊎◌, true, String, none, some, [], flatten, Perm, All}
use repoauditor.Matching.Defs.{find_matches, same_issue, line_overlap}
use repoauditor.Matching.Cwe.{nonempty, shared, cwes_of}
use repoauditor.Matching.Classes.{Linked}
use repoauditor.Matching.Groups.{
  classes, SharesKey, find_matches-classes, find_matches_perm, find_matches-SharesKey,
}
use repoauditor.Matching.Pair.{CweConflict, same_issue_sym, same_issue_iff}
use repoauditor.Examples.Samples.{by_lens, by_tool, three}

find_matches-classes_example :
    (label : ℕ → ℕ) × ((i j : ℕ) → (label i ≡ label j) ↔ Linked three i j)
    × ((find_matches three).groups ≡ classes label [] 0 three)
find_matches-classes_example = find_matches-classes three

find_matches_perm_example : Perm (flatten (find_matches three).groups) three
find_matches_perm_example = find_matches_perm three

find_matches-SharesKey_example : All SharesKey (find_matches three).groups
find_matches-SharesKey_example = find_matches-SharesKey three

same_issue_sym_example :
    ((same_issue by_lens by_tool).matched ≡ (same_issue by_tool by_lens).matched)
    × ((same_issue by_lens by_tool).divergence ≡ (same_issue by_tool by_lens).divergence)
same_issue_sym_example = same_issue_sym by_lens by_tool

same_issue_iff_example : ((same_issue by_lens by_tool).matched ≡ true) ↔ (
    ((k : String) × (by_lens.identity_key ≡ some k) × (by_tool.identity_key ≡ some k))
    ⊎ ((by_lens.identity_key ≡ none)
        × (by_tool.identity_key ≡ none)
        × (¬ CweConflict by_lens by_tool)
        × ((line_overlap by_lens by_tool ≡ true)
            ⊎ ((nonempty (shared (cwes_of by_lens) (cwes_of by_tool)) ≡ true)
                × ((e : ℕ) × (by_lens.entity_id ≡ some e) × (by_tool.entity_id ≡ some e))))))
same_issue_iff_example = same_issue_iff by_lens by_tool
