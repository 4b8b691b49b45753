-- ===== src/Settings.antt =====
-- internal/config: the loaded configuration and the environment of the program. What a loaded
-- configuration gives the chain is in Settings/Compiled.
pub mod Env
pub mod Validate
pub mod Load
pub mod Compiled
pub mod Loaded
