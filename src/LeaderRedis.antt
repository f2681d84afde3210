-- ===== src/LeaderRedis.antt =====
-- packages/bluetape-leader-redis/src/bluetape/leader/redis: the scripts that run on the server.
pub mod Redis
pub mod Errors
pub mod Handle
pub mod Keys
pub mod Options
pub mod Lock
pub mod Elector
pub mod Decimal
pub mod Scripts
pub mod Replies
pub mod Record
mod Examples
