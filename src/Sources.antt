-- ===== src/Sources.antt =====
-- src/repoauditor/sourcefiles.py: the bounded, directory-diverse selection of source files.
pub mod Selection
pub mod Rounds
pub mod Distinct
pub mod Shares
pub mod Whole
