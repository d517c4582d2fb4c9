-- ===== src/Disk.antt =====
-- The block store layers of grass/block, one module each.
pub mod Ram
pub mod Part
pub mod Stat
pub mod Tree
pub mod Check
pub mod Clock
pub mod Raid0
pub mod Raid1
pub mod Cache
pub mod Stack
mod Tests
