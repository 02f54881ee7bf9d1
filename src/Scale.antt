-- ===== src/Scale.antt =====
-- hack/arena-sc-horizontal-scale-summarize.py: the summarizer of a horizontal scale campaign.
pub mod Validate
pub mod Intervals
pub mod Blocks
pub mod Reconcile
pub mod Accepts
pub mod Statistics
pub mod Cells
pub mod Decision
pub mod Evidence
pub mod Sentinels
pub mod Confirmed
