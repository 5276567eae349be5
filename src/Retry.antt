-- ===== src/Retry.antt =====
-- internal/retry: retries with backoff, and the circuit breaker.
pub mod Breaker
pub mod Manager
pub mod Attempts
