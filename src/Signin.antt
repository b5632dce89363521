-- ===== src/Signin.antt =====
-- internal/auth/service.go: signing in over the accounts and the throttle.
pub mod Authenticate
pub mod Login
pub mod Checks
pub mod Verification
