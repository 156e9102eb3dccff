-- ===== src/Api/UseCases/Create.antt =====
-- create_job.py: `CreateJobUseCase.execute` and its helpers.
pub mod Outcome
use ai_microservices.Base.{String, ℕ, none, some, Option, map}
use mathlib.Core.Option
use ai_microservices.Base.Int.{ℤ, pos}
use ai_microservices.Base.Value.{Fields}
use ai_microservices.Base.Value
use ai_microservices.Api.Result.{value_error}
use ai_microservices.Api.Effects.{Exec, lift, guard, ◌>>=◌, ◌>>◌}
use ai_microservices.Api.Job.{Job, is_valid}
use ai_microservices.Api.Job
use ai_microservices.Api.UseCases.{
  Service, World, JobDto, Event, persist, publish, dispatch, construct,
}

-- a `CreateJobDTO` that its declaration accepted
pub record CreateJobDto : Type 0 where
  pub job_type : String
  pub input_data : Fields
  pub priority : ℤ
  pub timeout_seconds : ℤ
  pub user_id : String

module _ (S : Service) where
  open S use {isoformat_z}

  unfoldable pub dispatch_to_queue : Job → Exec (World S) Unit
  unfolding dispatch
  dispatch_to_queue job = dispatch S (record {
    job_id = job.id;
    job_type = job.job_type;
    input_data = job.input_data;
    user_id = job.user_id;
    priority = job.priority;
    timeout_seconds = job.timeout_seconds;
  })

  unfoldable pub publish_created : Job → Exec (World S) Unit
  unfolding publish
  publish_created job = publish S (
      Event.job_created job.id job.user_id job.job_type job.priority (isoformat_z job.created_at)
        job.input_data)

  -- The DTO of a new job: what is not passed takes the default of its declaration.
  unfoldable pub created_dto : Job → JobDto
  created_dto job = record {
    id = job.id;
    user_id = job.user_id;
    job_type = job.job_type;
    status = job.status;
    priority = job.priority;
    created_at = some (isoformat_z job.created_at);
    started_at = none;
    completed_at = Option.map isoformat_z job.completed_at;
    result = job.result;
    error = job.error;
    input_data = Value.end;
    timeout_seconds = some (pos 3600);
  }

  -- `fresh_id` and `now` are what `uuid4` and the clock return
  unfoldable pub execute : String → ℕ → CreateJobDto → Exec (World S) JobDto
  unfolding dispatch_to_queue publish_created created_dto
  execute fresh_id now input_dto = do
    job ← lift (
        Job.create fresh_id now input_dto.job_type input_dto.input_data (some input_dto.user_id)
          input_dto.priority (some input_dto.timeout_seconds))
    guard (is_valid job) value_error
    saved_job ← persist S job
    dispatch_to_queue saved_job
    publish_created saved_job
    lift (construct S (created_dto saved_job))
