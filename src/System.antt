-- ===== src/System.antt =====
-- The system calls that the programs use, as interfaces: what stands outside the repository is a
-- parameter of the models, and its documented behaviour a hypothesis of the theorems.
pub mod Writer
pub mod Chunked
pub mod Reader
pub mod Plain
