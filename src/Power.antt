-- ===== src/Power.antt =====
-- libpower/power.c: the power HAL, which asks the cpufreq governor for touch boosts.
pub mod Hints
pub mod Sysfs
pub mod Invariant
pub mod Boosts
pub mod Performed
pub mod Reading
mod Tests
