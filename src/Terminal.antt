-- ===== src/Terminal.antt =====
-- The programs of 13_Terminal.
pub mod Attributes
pub mod Speed
pub mod Keys
pub mod Getch
pub mod Password
pub mod Windows
pub mod Ship
mod Tests
mod KeyTests
