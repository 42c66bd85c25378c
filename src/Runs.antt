-- ===== src/Runs.antt =====
-- The pipeline and stage runs, their linked batches and the usage of models, in
-- src/repoauditor/store/db.py.
pub mod Tables
pub mod Steps
pub mod Chain
pub mod Lineage
pub mod Usage
pub mod Stages
