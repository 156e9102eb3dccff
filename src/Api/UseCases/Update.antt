-- ===== src/Api/UseCases/Update.antt =====
-- update_job.py: `UpdateJobUseCase.execute`.
pub mod Outcome
use ai_microservices.Base.{String, Bool, true, not, ◌||◌, Option, none, some, map}
use mathlib.Core.Option
use ai_microservices.Base.Int.{ℤ, pos, ltb_ℤ}
use ai_microservices.Base.Value.{Fields}
use ai_microservices.Base.Text.{truthy}
use ai_microservices.Api.Result.{value_error, job_not_found}
use ai_microservices.Api.Effects.{Exec, lift, guard, or_raise, ◌>>=◌, ◌>>◌}
use ai_microservices.Api.Job.{Job, is_valid}
use ai_microservices.Api.UseCases.{
  Service, World, JobDto, Event, find, persist, assign, publish, map_to_dto,
}

-- the arguments that may be None
pub record Changes : Type 0 where
  pub priority : Option ℤ
  pub status : Option String
  pub result : Option Fields
  pub error : Option String

-- `if priority is not None: if priority < 1 or priority > 10: raise …`
unfoldable pub priority_fits : Option ℤ → Bool
priority_fits none = true
priority_fits (some p) = not (ltb_ℤ p (pos 1) || ltb_ℤ (pos 10) p)

-- `if x is not None: job.field = x`
abbrev pub set_if {ℓ} : {A : Type ℓ} → Option A → A → A
set_if none old = old
set_if (some new) old = new

abbrev pub set_some_if {ℓ} : {A : Type ℓ} → Option A → Option A → Option A
set_some_if none old = old
set_some_if (some new) old = some new

unfoldable pub apply_changes : Changes → Job → Job
apply_changes c job = record job {
  priority = set_if c.priority job.priority;
  status = set_if c.status job.status;
  result = set_some_if c.result job.result;
  error = set_some_if c.error job.error;
}

module _ (S : Service) where
  open S use {isoformat}

  unfoldable pub publish_updated : Job → Exec (World S) Unit
  publish_updated job = publish S (
      Event.job_updated job.id job.user_id job.status job.priority
        (Option.map isoformat job.completed_at))

  -- A refused priority raises before any field is assigned to.
  unfoldable pub update_found : Changes → Job → Exec (World S) JobDto
  unfolding publish_updated
  update_found changes job = do
    guard (priority_fits changes.priority) value_error
    assign S (apply_changes changes job)
    guard (is_valid (apply_changes changes job)) value_error
    updated_job ← persist S (apply_changes changes job)
    publish_updated updated_job
    lift (map_to_dto S updated_job)

  unfoldable pub update_job : String → Changes → Exec (World S) JobDto
  update_job job_id changes = do
    guard (truthy job_id) value_error
    found ← find S job_id
    job ← or_raise found (job_not_found job_id)
    update_found changes job
