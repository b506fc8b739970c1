-- ===== src/Threads.antt =====
-- The programs of 10_Threads in which threads share data.
pub mod Cancel
pub mod Sum
pub mod Lines
pub mod Condition
mod Tests
