-- ===== src/Store/Ranks.antt =====
-- src/repoauditor/store/models.py: `severity_rank` and `cap_severity`.
use repoauditor.Prelude.{ℕ, ◌≡◌, arith, leb, if◌then◌else◌, min}
use repoauditor.Store.{Severity, info, low, medium, high, critical}

abbrev pub severity_rank : Severity → ℕ
severity_rank info = 0
severity_rank low = 1
severity_rank medium = 2
severity_rank high = 3
severity_rank critical = 4

unfoldable pub cap_severity : Severity → Severity → Severity
cap_severity proposed ceiling =
    if leb (severity_rank proposed) (severity_rank ceiling) then proposed else ceiling

-- The capped severity ranks as the lower of the two.
pub rank-cap_severity :
    (proposed ceiling : Severity)
    → severity_rank (cap_severity proposed ceiling)
      ≡ min (severity_rank proposed) (severity_rank ceiling)
unfolding cap_severity
rank-cap_severity proposed ceiling = ground arith
