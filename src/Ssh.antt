-- ===== src/Ssh.antt =====
-- internal/proxy/ssh: git over SSH, from the client's command to the upstream host.
pub mod Command
pub mod Session
pub mod KnownHosts
pub mod Advertisement
pub mod Request
pub mod Handler
