-- ===== src/Modbus.antt =====
-- src/lib/modbus: the Modbus protocol core, its transports and its retry policy.
pub mod Core
pub mod Crc
pub mod Request
pub mod Response
pub mod Transport
pub mod Value
pub mod Backoff
pub mod Batches
pub mod Writes
mod Tests
