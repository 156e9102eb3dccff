-- ===== src/Engine/Orchestrator/Verdict.antt =====
-- What a job of the AI engine should end with: a description of the outcome of `process_job` of
-- ai_engine/application/orchestrator.py that has neither steps nor a repository.
use ai_microservices.Engine.Job.{
  Exception, Attempt, raised, done, JobType, type_value, JobResult, AiJob, failure,
}
use Prim.Native.String.{◌++◌}
use ai_microservices.Base.{
  Option, none, some, string_eq, if◌then◌else◌, ◌≡◌, refl, inl, inr, ◌⊎◌, nat_eq, pair_eq,
}
use ai_microservices.Base.Value.{Fields}
use ai_microservices.Api.Status.Diagram.{Status}
use ai_microservices.Engine.Orchestrator.{Task, message_of, failure_message}

pub Attempt-cases {ℓ} :
    {A : Type ℓ} (r : Attempt A) → ((e : Exception) × (r ≡ raised e)) ⊎ ((a : A) × (r ≡ done a))
Attempt-cases (raised e) = inl (e, refl)
Attempt-cases (done a) = inr (a, refl)

module _ (registry : JobType → Option Task) where
  abbrev pub judged : Attempt JobResult → Status × JobResult
  judged (raised e) = (Status.failed, failure (message_of e))
  judged (done result) =
      if result.success
      then (Status.completed, result)
      else (Status.failed, failure (failure_message result.error))

  abbrev pub attempted : Task → Fields → Status × JobResult
  attempted task payload = elim (task.validate_payload payload) [
    | raised e ↦ (Status.failed, failure (message_of e))
    | done u ↦ judged (task.execute payload)
  ]

  -- what a job of a type should end with, for a payload
  abbrev pub verdict : JobType → Fields → Status × JobResult
  verdict job_type payload = elim (registry job_type) [
    | none ↦ (
      Status.failed,
      failure ("No task registered for job type '" ++ type_value job_type ++ "'."),
    )
    | some task ↦ attempted task payload
  ]

-- `j` is `job` with another status, result and time of change.
pub record IsResultOf (job : AiJob) (v : Status × JobResult) (j : AiJob) : Type 0 where
  pub status_is : j.status ≡ v.0
  pub result_is : j.result ≡ some v.1
  pub job_id_kept : j.job_id ≡ job.job_id
  pub job_type_kept : j.job_type ≡ job.job_type
  pub payload_kept : j.payload ≡ job.payload
  pub tags_kept : j.tags ≡ job.tags
  pub created_at_kept : j.created_at ≡ job.created_at
