-- ===== src/Cache.antt =====
-- packages/bluetape-cache/src/bluetape/cache: a bounded cache whose entries expire.
pub mod Dict
pub mod State
pub mod Flights
pub mod Arguments
mod Examples
