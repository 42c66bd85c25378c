-- ===== src/Matching.antt =====
-- src/repoauditor/matching.py: when two findings are the same issue, and the clusters of a list of
-- findings. The text of a decision's reason and detail is not modelled; its basis is.
pub mod Cwe
pub mod Forest
pub mod Defs
pub mod Roots
pub mod Joins
pub mod Pair
pub mod Classes
pub mod Groups
