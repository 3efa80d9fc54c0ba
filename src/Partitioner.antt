-- ===== src/Partitioner.antt =====
-- installer/partitioner.c, which makes room on a disk and creates the Android partitions.
pub mod Samples
pub mod Sizes
pub mod Android
pub mod Create
pub mod Dialog
pub mod Execute
pub mod Prepare
mod Tests
