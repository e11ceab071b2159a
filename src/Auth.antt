-- ===== src/Auth.antt =====
-- internal/middleware/auth.go, internal/middleware/auth_context.go and
-- internal/service/auth/cache.go: who may call the API.
pub mod Jwt
pub mod Cache
pub mod Requests
mod Tests
