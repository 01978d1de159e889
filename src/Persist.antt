-- ===== src/Persist.antt =====
-- src/persist: the dump of the whole world.
pub mod Writing
pub mod Reading
pub mod Restoring
pub mod Places
pub mod Steps
pub mod Scalars
pub mod Arrays
pub mod Tables
pub mod Closures
pub mod Dumping
pub mod RoundTrip
pub mod World
pub mod Placing
pub mod Placements
pub mod Placed
pub mod Restore
pub mod Restored
