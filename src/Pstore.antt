-- ===== src/Pstore.antt =====
-- pstore/pstore-clean.c: the tool that moves kernel dumps out of the pstore file system.
pub mod Names
pub mod Stripping
pub mod Kernel
pub mod Copy
pub mod Clean
pub mod Copies
pub mod Balance
pub mod Ends
pub mod Removes
pub mod Outcome
pub mod Termination
pub mod Contents
pub mod Report
pub mod Success
mod Tests
