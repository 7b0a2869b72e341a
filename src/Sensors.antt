-- ===== src/Sensors.antt =====
-- shim/gui/SensorManager.cpp: the client of the sensor service.
pub mod Manager
pub mod Memory
pub mod Connect
pub mod Valid
pub mod State
pub mod Lookup
pub mod Queue
mod Model
mod Tests
