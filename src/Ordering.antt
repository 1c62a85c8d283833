-- ===== src/Ordering.antt =====
-- The orders of messages of solutions/challenge10_solution.go.
pub mod SequenceBuffer
pub mod Checks
