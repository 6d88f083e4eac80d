-- ===== src/Auth.antt =====
-- app/internal/auth/auth.go: verified claims.
pub mod Claims
pub mod Verifier
