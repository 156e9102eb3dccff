-- ===== src/Auth.antt =====
-- services/auth_service: the refresh tokens, the users and the login by OAuth.
pub mod Tokens
pub mod Users
pub mod Refresh
pub mod Login
pub mod Jwt
mod Examples
