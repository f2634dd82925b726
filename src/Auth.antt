-- ===== src/Auth.antt =====
-- pkg/auth.
pub mod Passwords
pub mod Tokens
pub mod Interceptor
