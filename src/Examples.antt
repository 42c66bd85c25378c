-- ===== src/Examples.antt =====
-- The theorems at concrete inputs.
mod Samples
mod Groups
mod Resolutions
mod Challenges
mod Reviews
mod Calls
mod Files
mod Plans
mod Batches
mod Detections
mod Agreements
mod Labels
