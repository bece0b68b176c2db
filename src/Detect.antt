-- ===== src/Detect.antt =====
-- detect_radio_module: the program that asks a radio module what it is.
mod Numbers
mod Tests
pub mod Frame
pub mod Stream
pub mod Detector
