-- ===== src/Bus.antt =====
-- The event buses of solutions/solution17_event_bus.go.
pub mod Ring
pub mod Priority
pub mod Breaker
pub mod Checks
