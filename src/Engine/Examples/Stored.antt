-- ===== src/Engine/Examples/Stored.antt =====
-- A job that is stored in a repository in memory, and processed.
use ai_microservices.Base.{string_eq, some, [], ◌≡◌, refl, ==_refl, ◌∷◌}
use ai_microservices.Base.Value.{end}
use ai_microservices.Api.Status.Diagram.{Status}
use ai_microservices.Engine.Job.{done, AiJob, JobType, failure, Exception}
use ai_microservices.Engine.Orchestrator.{process_job, message_of}
use ai_microservices.Engine.Orchestrator.Verdict.{verdict}
use ai_microservices.Engine.Orchestrator.Outcome.{IsSettled, process_pending}
use ai_microservices.Engine.Orchestrator.Again.{process_running}
use ai_microservices.Engine.Examples.{submitted, registry, clock, memory, memory-IsLawful, Jobs}

-- the repository with one job
abbrev holding : AiJob → Jobs
holding j = (j.job_id, j) ∷ []

get_held : (j : AiJob) → memory.get_by_id j.job_id (holding j) ≡ done (some j)
get_held j = simp (==_refl j.job_id)

process_pending_example :
    IsSettled memory memory-IsLawful registry clock submitted
      (holding submitted)
      (verdict registry JobType.summarization end)
      (process_job memory registry clock "j1" (holding submitted))
process_pending_example =
    process_pending memory memory-IsLawful registry clock submitted (holding submitted)
      (get_held submitted) refl

abbrev running : AiJob
running = record submitted { status = Status.running }

process_running_example :
    (e : Exception) × IsSettled memory memory-IsLawful registry clock running
      (holding running)
      (Status.failed, failure (message_of e))
      (process_job memory registry clock "j1" (holding running))
process_running_example =
    process_running memory memory-IsLawful registry clock running (holding running)
      (get_held running) refl
