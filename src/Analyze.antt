-- ===== src/Analyze.antt =====
-- The analysis, src/repoauditor/analyze: the agreement of sources.
pub mod Corroboration
pub mod Agreement
