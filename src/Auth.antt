-- ===== src/Auth.antt =====
-- internal/auth: the login strategies and the registry, the bearer tokens of the API, and the OpenID
-- Connect login; the routes of /api/auth and the CSRF check of internal/proxy/http.
pub mod Config
pub mod Registry
pub mod Jwk
pub mod Jwt
pub mod Oidc
pub mod Login
pub mod Csrf
