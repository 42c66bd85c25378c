-- ===== src/Detect.antt =====
-- The detection stage, src/repoauditor/detect: which regions it examines, where a model's citation
-- is anchored, and how an interrupted run resumes.
pub mod Planning
pub mod Plan
pub mod Counted
pub mod Gathered
pub mod Planned
pub mod Citation
pub mod Search
pub mod Anchoring
pub mod Stable
pub mod Regions
pub mod Ensemble
pub mod Done
pub mod Marked
pub mod Examined
pub mod Resume
pub mod Rerun
pub mod Persisted
