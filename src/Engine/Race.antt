-- ===== src/Engine/Race.antt =====
-- `process_job` and `cancel_job` of ai_engine/application/async_orchestrator.py on one stored job, with
-- `cancel_job` of ai_engine/infrastructure/workers/async_job_worker.py, at the points where they
-- await: each holds a copy of the job that it loaded, and the repository holds another. The
-- database answers, and the job's task is registered.
pub mod Fits
pub mod Settled
pub mod Lost
use ai_microservices.Base.{ℕ, String, ◌≡◌}
use ai_microservices.Api.Status.Diagram.{Status}
use ai_microservices.Engine.Job.{
  Attempt, raised, done, Exception, JobResult, AiJob, mark_running, cancel,
}
use ai_microservices.Engine.Orchestrator.{Task, Clock, message_of, fail_job, conclude}

-- where the coroutine of `process_job` stands, with its copy of the job
pub data Process : Type 0 where
  scheduled : Process
  loaded : AiJob → Process
  starting : AiJob → Process
  executing : AiJob → Process
  finishing : AiJob → Process
  returned : AiJob → Process
  crashed : Exception → Process
  -- by `task.cancel()`
  interrupted : Process

-- where the coroutine of `cancel_job` stands
pub data Canceller : Type 0 where
  idle : Canceller
  holding : AiJob → Canceller
  accepted : AiJob → Canceller
  refused : Exception → Canceller

pub record System : Type 0 where
  pub stored : AiJob
  pub process : Process
  pub canceller : Canceller

abbrev pub system : AiJob → Process → Canceller → System
system stored process canceller = record {
  stored = stored;
  process = process;
  canceller = canceller;
}

module _ (clock : Clock) (shown : Status → String) (now : ℕ) (task : Task) where
  -- `await task.validate_payload(job.payload)`, then `job.mark_running()`
  abbrev pub prepare : AiJob → Attempt AiJob
  prepare job = elim (task.validate_payload job.payload) [
    | raised e ↦ raised e
    | done u ↦ mark_running clock.started job
  ]

  -- what is raised in the `try` goes to the handlers
  abbrev pub handled : AiJob → Attempt AiJob → Attempt AiJob
  handled job (raised e) = fail_job clock (message_of e) job
  handled job (done job') = done job'

  -- `await task.execute(job.payload)`, and the branches on its result
  abbrev pub after : AiJob → Attempt JobResult → Attempt AiJob
  after job (raised e) = raised e
  after job (done result) = conclude clock.finished result job

  -- what comes of `prepare`: a job to be stored as running, or one to be stored as failed
  abbrev pub prepared : AiJob → Attempt AiJob → Process
  prepared job (done job') = starting job'
  prepared job (raised e) = elim (fail_job clock (message_of e) job) [
    | raised e' ↦ crashed e'
    | done job' ↦ finishing job'
  ]

  abbrev pub executed : Attempt AiJob → Process
  executed (raised e) = crashed e
  executed (done job) = finishing job

  abbrev pub asked : Attempt AiJob → Canceller
  asked (raised e) = refused e
  asked (done job) = holding job

  -- a coroutine that has not ended
  abbrev pub IsRunning : Process → Type 0
  IsRunning (returned job) = ⊥
  IsRunning (crashed e) = ⊥
  IsRunning interrupted = ⊥
  IsRunning _ = Unit

  -- One of the coroutines goes on to its next `await`.
  pub data Step : System → System → Type 0 where
    load : (j : AiJob) (c : Canceller) → Step (system j scheduled c) (system j (loaded j) c)
    begin :
        (j k : AiJob) (c : Canceller)
        → Step (system k (loaded j) c) (system k (prepared j (prepare j)) c)
    -- `await self._repo.update(job)`
    announce :
        (j k : AiJob) (c : Canceller) → Step (system k (starting j) c) (system j (executing j) c)
    execute :
        (j k : AiJob) (c : Canceller)
        → Step
            (system k (executing j) c)
            (system k (executed (handled j (after j (task.execute j.payload)))) c)
    store :
        (j k : AiJob) (c : Canceller) → Step (system k (finishing j) c) (system j (returned j) c)
    request :
        (k : AiJob) (p : Process) → Step (system k p idle) (system k p (asked (cancel shown now k)))
    confirm : (j k : AiJob) (p : Process) → Step (system k p (holding j)) (system j p (accepted j))
    -- the worker's `task.cancel()`, after the orchestrator's `cancel_job`
    interrupt :
        (j k : AiJob) (p : Process)
        → IsRunning p
        → Step (system k p (accepted j)) (system k interrupted (accepted j))

  pub data Reach (s : System) : System → Type 0 where
    here : Reach s s
    next : {t u : System} → Reach s t → Step t u → Reach s u
