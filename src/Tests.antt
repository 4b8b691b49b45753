-- ===== src/Tests.antt =====
-- A push and a pull, run through the program at concrete values, and what the theorems say of them.
pub mod Fixture
pub mod Runs
pub mod Requests
pub mod Values
pub mod Api
pub mod Auth
pub mod SshRuns
pub mod Ssh
pub mod Migrate
pub mod Loader
