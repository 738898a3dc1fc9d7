-- ===== src/Redis.antt =====
-- internal/adapters/repository/redis: the repositories over a Redis server.
pub mod Key
pub mod Lua
pub mod Server
pub mod Client
pub mod Json
pub mod Transactions
pub mod Blacklist
pub mod States
pub mod Health
