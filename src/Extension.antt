-- ===== src/Extension.antt =====
-- hack/arena-sc-knee-confirm-extension-analyze.py: the extension of the confirmation study by a second stage.
pub mod StageB
pub mod Pool
pub mod Analyze
mod Pooled
pub mod Confirmed
