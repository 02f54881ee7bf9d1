-- ===== src/Topology/Gate.antt =====
-- hack/arena-sc-topology-preflight.py: `validate_snapshot`, the verdict on the placement of the targets.
pub mod CpuSets
pub mod Nodes
pub mod Pods
pub mod Pairs
pub mod Verdict
pub mod Settled
pub mod Total
pub mod Isolation
pub mod Read
pub mod Passed
pub mod Partition
