-- ===== src/Worker.antt =====
-- services/ai_worker: the job manager.
pub mod JobManager
pub mod Routes
mod Examples
