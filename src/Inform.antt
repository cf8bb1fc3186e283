-- ===== src/Inform.antt =====
-- The package inform: the device side of the inform protocol (descriptor.go, tables.go, session.go,
-- crypto.go, packet.go).
pub mod Json
pub mod Descriptor
pub mod Tables
pub mod Crypto
pub mod Packet
pub mod Payload
pub mod Session
pub mod Samples
