-- ===== src/Plan.antt =====
-- hack/arena-sc-horizontal-scale-plan.py: the immutable plan and sequence ledger of a scale rung.
pub mod Gates
pub mod Types
pub mod Cells
pub mod Build
pub mod Document
pub mod Slots
pub mod Runnable
pub mod Order
pub mod Success
pub mod Intervals
pub mod Totals
pub mod Ledgers
pub mod Overlap
