-- ===== src/Auth.antt =====
-- internal/auth and internal/user: accounts, the limit on failed logins, access and refresh tokens.
pub mod Model
pub mod Limiter
pub mod Steps
pub mod Users
pub mod Tokens
pub mod Session
pub mod Login
pub mod Account
pub mod Gate
pub mod Serve
pub mod Rotation
pub mod Revocation
