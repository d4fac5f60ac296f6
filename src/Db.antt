-- ===== src/Db.antt =====
-- db_proxy_server/DBPool.h and DBPool.cc, over the MySQL client library: result sets, prepared
-- statements, connections, their pools and the manager of these; `main` of the proxy, and
-- business/InterLogin.cc, which use them.
pub mod ResultSet
pub mod Statement
pub mod Conn
pub mod Pool
pub mod Manager
pub mod Main
pub mod Login
mod Tests
