-- ===== src/Review.antt =====
-- src/repoauditor/review: the blocking checkpoint of human review and the trail of decisions, over
-- the tables `review_request` and `review_decision` of src/repoauditor/store/db.py.
pub mod Tables
pub mod Audit
pub mod Rulings
pub mod Gate
pub mod Counting
pub mod Checkpoint
pub mod Upserts
pub mod Raising
pub mod Unsampled
