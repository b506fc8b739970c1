-- ===== src/Files.antt =====
-- The programs of 02_Files, and my_stat of 03_Attributes.
pub mod Copy
pub mod Dup
pub mod Trash
pub mod Walk
pub mod Backward
pub mod Rights
mod Tests
