-- ===== src/Engine/Race/Settled.antt =====
-- How a job that is processed and cancelled at the same time ends
-- (ai_engine/application/async_orchestrator.py).
use ai_microservices.Api.Status.Diagram.{Status}
use ai_microservices.Engine.Race.Fits.{Fits}
