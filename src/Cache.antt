-- ===== src/Cache.antt =====
-- db_proxy_server/CachePool.h and CachePool.cc: connections to redis, their pool, and the manager of
-- the pools.
pub mod Reply
pub mod Conn
pub mod Pool
pub mod Manager
pub mod Commands
pub mod Lists
pub mod Laws
mod Tests
