-- ===== src/Orm.antt =====
-- The object-relational mapper of Server/DB/ORM and the pool of its connections, Server/DB.
pub mod Property
pub mod Meta
pub mod Sql
pub mod Connection
pub mod Context
pub mod Pool
