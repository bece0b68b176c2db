-- ===== src/Hm.antt =====
-- The frame layer of the radio module's serial protocol: kernel/hm.h.
pub mod Crc
pub mod Escape
pub mod Frame
mod Tests
