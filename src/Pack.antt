-- ===== src/Pack.antt =====
-- internal/chain/parsepush.go: the pkt-lines and the pack of a push, and the commits in it.
pub mod PktLine
pub mod Objects
pub mod Person
pub mod Commit
pub mod Bounds
