-- ===== src/Topology.antt =====
-- hack/arena-sc-topology-preflight.py: the CPU topology preflight.
pub mod CpuList
pub mod Gate
