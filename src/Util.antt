-- ===== src/Util.antt =====
-- The installer's utilities: installer/util.c.
pub mod Copy
