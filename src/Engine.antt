-- ===== src/Engine.antt =====
-- ai_engine: the jobs of the AI processing engine.
pub mod Job
pub mod Repository
pub mod Orchestrator
pub mod Race
mod Examples
pub mod Tasks
pub mod Worker
