-- ===== src/Api/UseCases/Delete.antt =====
-- delete_job.py: `DeleteJobUseCase.execute`.
pub mod Outcome
use ai_microservices.Base.{String, Bool, false, ◌||◌, none, some, if◌then◌else◌}
use ai_microservices.Base.Text.{truthy}
use ai_microservices.Api.Result.{value_error, permission_error}
use ai_microservices.Api.Effects.{Exec, pure, guard, ◌>>=◌, ◌>>◌}
use ai_microservices.Api.Job.{Job}
use ai_microservices.Api.UseCases.{Service, World, Event, find, remove, publish}
use ai_microservices.Api.UseCases.Cancel.{is_owner}

module _ (S : Service) where
  unfoldable pub publish_deleted : Job → String → Exec (World S) Unit
  publish_deleted job deleted_by =
      publish S (Event.job_deleted job.id job.user_id deleted_by job.status)

  -- the deletion of a job that was found
  unfoldable pub delete_found : String → String → Bool → Job → Exec (World S) Bool
  unfolding publish_deleted is_owner
  delete_found job_id user_id is_admin job = do
    guard (is_admin || is_owner user_id job) permission_error
    deleted ← remove S job_id
    (if deleted then publish_deleted job user_id else pure tt)
    pure deleted

  unfoldable pub delete_job : String → String → Bool → Exec (World S) Bool
  delete_job job_id user_id is_admin = do
    guard (truthy job_id) value_error
    guard (truthy user_id) value_error
    found ← find S job_id
    elim found [ none ↦ pure false | some job ↦ delete_found job_id user_id is_admin job ]
