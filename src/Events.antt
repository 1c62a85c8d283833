-- ===== src/Events.antt =====
-- Event sourcing: the stream store with snapshots of solutions/challenge13_solution.go, and the
-- store with a projected read model of solutions/challenge12_solution.go.
pub mod Snapshots
pub mod ReadModel
pub mod Checks
