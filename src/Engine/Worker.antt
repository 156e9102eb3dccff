-- ===== src/Engine/Worker.antt =====
-- ai_engine/infrastructure/workers/job_worker.py: the queue of the thread pool before the orchestrator.
-- A job is run from beginning to end; what interleaves with it is Engine/Race.antt.
use ai_microservices.Base.{String, Bool, true, Option, List, [], ◌∷◌, ◌++◌, if◌then◌else◌}
use ai_microservices.Engine.Job.{other, Attempt, raised, done, AiJob, JobType}
use ai_microservices.Engine.Repository.{AiJobRepository}
use ai_microservices.Engine.Orchestrator.{Task, Clock, process_job}

module _ (R : AiJobRepository) (registry : JobType → Option Task) where
  open R use {State}

  pub record Worker : Type 0 where
    pub store : State
    -- what the pool has not started yet
    pub queued : List String
    pub is_shut : Bool
    -- what the hook `on_complete` was called with
    pub completed : List AiJob

  -- `ThreadPoolExecutor.submit` raises RuntimeError once the pool is shut down
  unfoldable pub enqueue : String → Worker → Attempt (Unit {0}) × Worker
  enqueue job_id w =
      if w.is_shut
      then (raised (other "cannot schedule new futures after shutdown"), w)
      else (done tt, record w { queued = w.queued ++ (job_id ∷ []) })

  abbrev pub shutdown : Worker → Worker
  shutdown w = record w { is_shut = true }

  -- what the hook raises is logged and dropped
  abbrev pub hooked : Attempt AiJob × State → Worker → Attempt AiJob × Worker
  hooked (raised e, s) w = (raised e, record w { store = s })
  hooked (done job, s) w = (done job, record w { store = s; completed = w.completed ++ (job ∷ []) })

  -- `_run`, with a hook
  unfoldable pub run : Clock → String → Worker → Attempt AiJob × Worker
  run clock job_id w = hooked (process_job R registry clock job_id w.store) w

  -- a thread takes the first item of the queue; an exception stays in its future
  abbrev pub run_next : Clock → Worker → Worker
  run_next clock w = elim w.queued [
    | [] ↦ w
    | job_id ∷ rest ↦ (run clock job_id (record w { queued = rest })).1
  ]
