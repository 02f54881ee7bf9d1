-- ===== src/Confirm.antt =====
-- hack/arena-sc-knee-confirm-analyze.py: the frozen decision rule of the 41/42-RPS confirmation study.
pub mod Fields
pub mod Cells
pub mod Runtime
pub mod Orders
pub mod Extract
pub mod Statistics
pub mod Blocks
pub mod Analyze
pub mod Found
pub mod Decision
pub mod Confirmed
