-- ===== src/Api.antt =====
-- internal/proxy/http: the handlers of the management API and of /api/auth, over any db.Store.
pub mod Context
pub mod Caller
pub mod Review
pub mod Repos
pub mod Users
