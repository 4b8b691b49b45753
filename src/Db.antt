-- ===== src/Db.antt =====
-- internal/db/sqlite/store.go and the queries of internal/db/store.go: the SQL statements over
-- tables kept as lists of rows. A failure of the driver itself is not modelled; a broken UNIQUE
-- constraint is.
pub mod Tables
pub mod Json
pub mod Pushes
pub mod Repos
pub mod Users
pub mod Interface
