-- ===== src/Emu.antt =====
-- The package emu at the repository's root: models.go, registry.go, profile.go, descriptor.go,
-- device.go, loop.go and emu.go.
pub mod Profile
pub mod Device
pub mod Loop
pub mod Fleet
pub mod InformUrl
pub mod Entries
pub mod Samples
