-- ===== src/Cli.antt =====
-- The command line tool unifi-emu (cmd/unifi-emu).
pub mod Devices
pub mod Fleet
pub mod AdoptSettings
mod Tests
