-- ===== src/Engine/Tasks.antt =====
-- ai_engine/application/tasks.
pub mod Sentiment
pub mod Summarization
