-- ===== src/Observability.antt =====
-- observability/: the counters, the rate limiter and the error reporter that batches its events.
pub mod Metrics
pub mod Tracing
pub mod Setup
pub mod RateLimiter
pub mod Circuit
pub mod Delivery
pub mod Reporter
