-- ===== src/Chain.antt =====
-- internal/chain: the action, the processors and the engine that runs them.
pub mod Action
pub mod Config
pub mod Context
pub mod Git
pub mod ParsePush
pub mod Checks
pub mod Clone
pub mod Inspect
pub mod ScanDiff
pub mod Gate
pub mod Engine
pub mod Keeps
pub mod KeepsClone
pub mod Approval
pub mod Outcome
pub mod Hidden
pub mod Verdicts
pub mod Permitted
pub mod Emails
pub mod DiffParser
pub mod Gitleaks
