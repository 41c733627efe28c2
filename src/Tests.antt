-- ===== src/Tests.antt =====
-- Runs of the model on concrete data.
pub mod Solver
pub mod Flow
pub mod Pseudo
pub mod Files
pub mod Patches
pub mod Streams
pub mod Hashes
pub mod Rules
