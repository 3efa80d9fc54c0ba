-- ===== src/Gpt.antt =====
-- libgpt/gpt.c and include/gpt/gpt.h, the partition table library.
pub mod Samples
pub mod Guid
pub mod Entry
pub mod Header
pub mod Init
pub mod Table
pub mod Name
pub mod Edit
pub mod Disk
pub mod FreeSpace
mod Tests
