-- ===== src/Policy.antt =====
-- shared/shared_auth: who may do what.
pub mod Roles
pub mod Rules
pub mod Token
pub mod Guards
mod Examples
