-- ===== src/Messages.antt =====
-- The partitioned message bus of solutions/solution18_message_bus.go.
pub mod Bus
pub mod Transactional
pub mod Consumer
pub mod Checks
