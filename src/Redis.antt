-- ===== src/Redis.antt =====
-- internal/db/redis_tools: the keys, and what the servers use of the Redis client.  The client and
-- the database behind it are parameters.
pub mod Keys
pub mod Dao
pub mod Connection
