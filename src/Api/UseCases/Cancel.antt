-- ===== src/Api/UseCases/Cancel.antt =====
-- cancel_job.py: `CancelJobUseCase.execute`.
pub mod Outcome
use ai_microservices.Base.{
  ℕ, String, Bool, false, not, ◌&&◌, none, some, [], ◌∷◌, ◌==◌, nat_eq, string_eq, pair_eq,
  contains, Option, map,
}
use mathlib.Core.Option
use ai_microservices.Base.Text.{truthy}
use ai_microservices.Api.Result.{value_error, job_not_found, permission_error, invalid_job_status}
use ai_microservices.Api.Effects.{Exec, lift, guard, or_raise, ◌>>=◌, ◌>>◌}
use ai_microservices.Api.Status.{pending, running}
use ai_microservices.Api.Job.{Job}
use ai_microservices.Api.Job
use ai_microservices.Api.UseCases.{
  Service, World, JobDto, Event, find, persist, assign, publish, map_to_dto,
}

-- `job.user_id == user_id`; None equals no text
unfoldable pub is_owner : String → Job → Bool
is_owner user_id job = elim job.user_id [ none ↦ false | some owner ↦ owner == user_id ]

module _ (S : Service) where
  open S use {isoformat}

  unfoldable pub publish_cancelled : Job → Exec (World S) Unit
  publish_cancelled job =
      publish S (Event.job_cancelled job.id job.user_id (Option.map isoformat job.completed_at))

  -- from the ownership check on
  unfoldable pub cancel_found : ℕ → String → Bool → Job → Exec (World S) JobDto
  unfolding publish_cancelled is_owner
  cancel_found now user_id is_admin job = do
    guard (not (truthy user_id && not is_admin && not (is_owner user_id job))) permission_error
    guard (contains (pending ∷ running ∷ []) job.status) invalid_job_status
    cancelled ← lift (Job.cancel now job)
    assign S cancelled
    cancelled_job ← persist S cancelled
    publish_cancelled cancelled_job
    lift (map_to_dto S cancelled_job)

  unfoldable pub cancel_job : ℕ → String → String → Bool → Exec (World S) JobDto
  unfolding cancel_found
  cancel_job now job_id user_id is_admin = do
    guard (truthy job_id) value_error
    found ← find S job_id
    job ← or_raise found (job_not_found job_id)
    cancel_found now user_id is_admin job
