-- ===== src/Examples/Agreements.antt =====
-- The sources of a group, compared.
use repoauditor.Prelude.{[], ◌∷◌}
use repoauditor.Analyze.Corroboration.{corroborate_group}
use repoauditor.Analyze.Agreement.{Recorded, corroborate_group-Recorded}
use repoauditor.Examples.Samples.{by_lens, by_tool}

corroborate_group-Recorded_example :
    Recorded by_lens (by_tool ∷ by_lens ∷ []) (corroborate_group by_lens (by_tool ∷ by_lens ∷ []))
corroborate_group-Recorded_example = corroborate_group-Recorded by_lens (by_tool ∷ by_lens ∷ [])
