-- ===== src/Health.antt =====
-- hack/arena-sc-transport-health-summarize.py: the change of the targets' health across a cell.
pub mod State
pub mod Events
pub mod Summary
pub mod Healthy
pub mod Counters
