-- ===== src/Migrate.antt =====
-- internal/migrate: moving a Node git-proxy's data into a store. The decoding of a document (encoding/json)
-- and the MongoDB reader are parameters.
pub mod Replay
pub mod Run
