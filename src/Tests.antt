-- ===== src/Tests.antt =====
-- Witnesses and tests, each part of the program's in a module of its own.
mod PlanTests
mod ConfirmInput
mod ConfirmTests
mod TopologyTests
mod KneeTests
mod Input
mod GateTests
mod CapacityTests
mod HealthTests
mod ExtensionTests
mod ScaleTests
