-- ===== src/Lights.antt =====
-- liblight/lights.c: the lights HAL. The mutex g_lock makes each call one step, so that calls are
-- functions on the state; the state is the three global light states and the sysfs files.
pub mod Board
pub mod Speaker
pub mod Module
pub mod Look
pub mod Display
pub mod Bounds
pub mod Brightness
pub mod Runs
mod Tests
