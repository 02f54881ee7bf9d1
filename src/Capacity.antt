-- ===== src/Capacity.antt =====
-- hack/arena-sc-horizontal-scale-preflight.py: the capacity preflight of a rung.
pub mod Quantities
pub mod Snapshot
pub mod Requests
pub mod Quota
pub mod Nodes
pub mod Volume
pub mod Evaluate
mod Room
pub mod Active
pub mod Mounts
pub mod Conditions
pub mod Usage
pub mod Listed
pub mod Additions
mod Admitted
pub mod Authorized
pub mod Bounds
