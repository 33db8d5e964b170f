-- ===== src/Storage.antt =====
-- The database of the servers: the pool of connections to it, and functions that use a connection.
mod Tests
pub mod MysqlPool
pub mod Session
pub mod Dao
