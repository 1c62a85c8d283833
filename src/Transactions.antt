-- ===== src/Transactions.antt =====
-- solutions/challenge12_solution.go: two-phase commit and sagas with compensation.
pub mod TwoPhase
pub mod Saga
pub mod Order
pub mod Checks
