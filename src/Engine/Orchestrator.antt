-- ===== src/Engine/Orchestrator.antt =====
-- ai_engine/application/orchestrator.py, and async_orchestrator.py, whose methods are the same with
-- `await`: each runs here from its beginning to its end.
pub mod Verdict
pub mod Outcome
pub mod Again
use ai_microservices.Engine.Job.{
  Exception, value_error, other, Attempt, raised, done, JobType, type_value, JobResult, AiJob,
  mark_running, mark_completed, mark_failed, cancel, new_job,
}
use ai_microservices.Engine.Repository.{AiJobRepository}
use Prim.Native.String.{◌++◌}
use ai_microservices.Base.{
  ℕ, String, Option, none, some, List, string_eq, ◌==◌, if◌then◌else◌, nat_eq, pair_eq, not,
}
use ai_microservices.Base.Value.{Fields}
use ai_microservices.Api.Status.Diagram.{Status}

-- ai_engine/application/base_task.py: what an orchestrator calls of a task
pub record Task : Type 0 where
  pub validate_payload : Fields → Attempt (Unit {0})
  pub execute : Fields → Attempt JobResult

-- what `datetime.now` returns where `process_job` starts the job, ends it, and fails it
pub record Clock : Type 0 where
  pub started : ℕ
  pub finished : ℕ
  pub restarted : ℕ
  pub given_up : ℕ

-- `str(exc)`, or `f"Unexpected error: {exc}"` for an exception that is no ValueError
abbrev pub message_of : Exception → String
message_of (value_error text) = text
message_of (other text) = "Unexpected error: " ++ text

-- `result.error or "Task returned failure without a message."`
abbrev pub failure_message : Option String → String
failure_message none = "Task returned failure without a message."
failure_message (some error) =
    if error == "" then "Task returned failure without a message." else error

abbrev pub unregistered : JobType → Exception
unregistered job_type =
    value_error ("No task registered for job type '" ++ type_value job_type ++ "'.")

-- the branches on `result.success`
abbrev pub conclude : ℕ → JobResult → AiJob → Attempt AiJob
conclude now result job =
    if result.success
    then mark_completed now result job
    else mark_failed now (failure_message result.error) job

abbrev pub fail_job : Clock → String → AiJob → Attempt AiJob
fail_job clock error job = elim job.status [
  | Status.pending ↦ elim (mark_running clock.restarted job) [
    | raised e ↦ raised e
    | done job' ↦ mark_failed clock.given_up error job'
  ]
  | _ ↦ mark_failed clock.given_up error job
]

module _ (R : AiJobRepository) (registry : JobType → Option Task) where
  open R use {State, save, get_by_id, list_by_status, update}

  -- The local `job`, the repository, and what the block of the `try` raised.
  pub record Block : Type 0 where
    pub job : AiJob
    pub store : State
    pub escaped : Option Exception

  abbrev pub ended : Attempt AiJob → AiJob → State → Block
  ended (done job') job s = record { job = job'; store = s; escaped = none }
  ended (raised e) job s = record { job = job; store = s; escaped = some e }

  abbrev pub finish : ℕ → Attempt JobResult → AiJob → State → Block
  finish now (raised e) job s = record { job = job; store = s; escaped = some e }
  finish now (done result) job s = ended (conclude now result job) job s

  abbrev pub run_task : Clock → Task → AiJob → Attempt (Unit {0}) × State → Block
  run_task clock task job (raised e, s) = record { job = job; store = s; escaped = some e }
  run_task clock task job (done tt, s) = finish clock.finished (task.execute job.payload) job s

  abbrev pub start_task : Clock → Task → AiJob → State → Block
  start_task clock task job s = elim (mark_running clock.started job) [
    | raised e ↦ record { job = job; store = s; escaped = some e }
    | done job' ↦ run_task clock task job' (update job' s)
  ]

  abbrev pub resolve_task : JobType → Attempt Task
  resolve_task job_type = elim (registry job_type) [
    | none ↦ raised (unregistered job_type)
    | some task ↦ done task
  ]

  abbrev pub try_block : Clock → AiJob → State → Block
  try_block clock job s = elim (resolve_task job.job_type) [
    | raised e ↦ record { job = job; store = s; escaped = some e }
    | done task ↦ elim (task.validate_payload job.payload) [
      | raised e ↦ record { job = job; store = s; escaped = some e }
      | done u ↦ start_task clock task job s
    ]
  ]

  -- the last two lines: `self._repo.update(job)` and `return job`
  abbrev pub stored : AiJob → Attempt (Unit {0}) × State → Attempt AiJob × State
  stored job (raised e, s) = (raised e, s)
  stored job (done tt, s) = (done job, s)

  -- the handlers of the exceptions
  abbrev pub settle : Clock → Block → Attempt AiJob × State
  settle clock b = elim b.escaped [
    | none ↦ stored b.job (update b.job b.store)
    | some e ↦ elim (fail_job clock (message_of e) b.job) [
      | raised e' ↦ (raised e', b.store)
      | done job' ↦ stored job' (update job' b.store)
    ]
  ]

  unfoldable pub load_job : String → State → Attempt AiJob
  load_job job_id s = elim (get_by_id job_id s) [
    | raised e ↦ raised e
    | done none ↦ raised (value_error ("Job not found: " ++ job_id))
    | done (some job) ↦ done job
  ]

  unfoldable pub process_job : Clock → String → State → Attempt AiJob × State
  process_job clock job_id s = elim (load_job job_id s) [
    | raised e ↦ (raised e, s)
    | done job ↦ settle clock (try_block clock job s)
  ]

  unfoldable pub submit_job :
      String → ℕ → ℕ → JobType → Fields → Fields → State → Attempt AiJob × State
  submit_job fresh_id now now' job_type payload tags s =
      let job = new_job fresh_id now now' job_type payload tags in stored job (save job s)

  unfoldable pub get_job : String → State → Attempt AiJob
  get_job job_id s = load_job job_id s

  unfoldable pub list_pending_jobs : Option ℕ → ℕ → State → Attempt (List AiJob)
  list_pending_jobs limit offset s = list_by_status Status.pending limit offset s

  -- of the asynchronous orchestrator only
  unfoldable pub cancel_job : (Status → String) → ℕ → String → State → Attempt AiJob × State
  cancel_job shown now job_id s = elim (load_job job_id s) [
    | raised e ↦ (raised e, s)
    | done job ↦ elim (cancel shown now job) [
      | raised e ↦ (raised e, s)
      | done job' ↦ stored job' (update job' s)
    ]
  ]
