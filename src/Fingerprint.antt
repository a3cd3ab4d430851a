-- ===== src/Fingerprint.antt =====
-- cpp/grow_fingerprint_serial_protocol.hh: the serial protocol of the fingerprint readers.
pub mod Port
pub mod Ret
pub mod Frame
pub mod Instructions
pub mod Commands
pub mod System
pub mod Identify
pub mod Framing
pub mod Answers
mod Tests
