-- ===== src/Locks.antt =====
-- solutions/challenge09_solution.go: three distributed locks.
pub mod Fencing
pub mod Lease
pub mod Redlock
pub mod Checks
