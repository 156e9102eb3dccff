-- ===== src/Engine/Examples/Runs.antt =====
-- Runs of a job that is processed while it is cancelled.
use ai_microservices.Engine.Job.{done}
use ai_microservices.Engine.Job.{cancel}
use ai_microservices.Base.{some, ◌≡◌, refl}
use ai_microservices.Api.Status.Diagram.{Status, name}
use ai_microservices.Engine.Job.{AiJob}
use ai_microservices.Engine.Race.{scheduled, idle, accepted, returned, System, system, Reach}
use ai_microservices.Engine.Race.Lost.{cancellation_lost, interrupted_running}
use ai_microservices.Engine.Examples.{submitted, summary, clock, task}

abbrev Run : System → System → Type 0
Run = Reach clock name 9 task

abbrev completed : AiJob
completed = record submitted { status = Status.completed; result = some summary; updated_at = 6 }

cancellation_lost_example :
    (asked_at : System) × (Run (system submitted scheduled idle) asked_at)
    × (asked_at.stored.status ≡ Status.running)
    × (asked_at.canceller ≡ idle)
    × (k : AiJob) × (cancel name 9 asked_at.stored ≡ done k)
    × (k.status ≡ Status.cancelled)
    × (stored_at : System) × (Run asked_at stored_at)
    × (stored_at.stored ≡ k)
    × (stored_at.canceller ≡ accepted k)
    × (s : System) × (Run stored_at s)
    × (s.stored ≡ completed)
    × (s.process ≡ returned completed)
cancellation_lost_example =
    cancellation_lost clock name 9 task submitted refl refl summary refl refl

-- the worker interrupts the coroutine that has stored the job as running
abbrev left : System
left = (interrupted_running clock name 9 task submitted refl refl).0
