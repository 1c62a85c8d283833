-- ===== src/Limits.antt =====
-- The rate limiters of solutions/solution04_rate_limiter.go.
pub mod SlidingWindow
pub mod Checks
