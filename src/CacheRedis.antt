-- ===== src/CacheRedis.antt =====
-- packages/bluetape-cache-redis/src/bluetape/cache/redis: the envelopes of results.
pub mod Envelope
pub mod Binary
pub mod Codec
mod Examples
