-- ===== src/Triage.antt =====
-- The labels that triage learns from, src/repoauditor/triage/labels.py.
pub mod Labels
pub mod Manual
