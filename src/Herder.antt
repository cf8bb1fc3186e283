-- ===== src/Herder.antt =====
-- internal/herder: the launcher of fleets of device containers. One module per file of the package.
pub mod Protocol
pub mod Plan
pub mod Readiness
pub mod Identity
pub mod Allocation
pub mod Inputs
pub mod Config
pub mod Contract
pub mod Release
pub mod Run
