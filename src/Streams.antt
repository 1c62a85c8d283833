-- ===== src/Streams.antt =====
-- The stream processing of solutions/challenge16_solution.go.
pub mod Checkpoint
pub mod Windows
pub mod Watermark
pub mod Checks
