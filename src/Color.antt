-- ===== src/Color.antt =====
-- libcolor/ColorConvert.cpp: conversions between I420 and NV12.
pub mod Convert
pub mod Rows
pub mod Formats
pub mod Decode
pub mod Encode
mod Tests
