-- ===== src/Resilience.antt =====
-- packages/bluetape-resilience/src/bluetape/resilience: policies around one operation.
pub mod Core
pub mod Operation
pub mod Releasing
pub mod Backoff
pub mod Retry
pub mod Circuit
pub mod Bulkhead
pub mod Timeout
pub mod AsyncBulkhead
mod Ticks
