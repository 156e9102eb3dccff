-- ===== src/Api.antt =====
-- services/api_service: the job entity, its repository and its use cases.
pub mod Result
pub mod Status
pub mod Job
pub mod Effects
pub mod Repository
pub mod UseCases
pub mod Http
pub mod Ai
pub mod Client
pub mod Middleware
mod Examples
