-- ===== src/Db.antt =====
-- The database: the rows of owtf/models/*.py and the interface through which the managers use
-- the object-relational mapper (SQLAlchemy over PostgreSQL), which the repository only calls.
pub mod Table
pub mod Models
pub mod Files
pub mod Memory
pub mod Query
