-- ===== src/Engine/Orchestrator/Again.antt =====
-- `process_job` of ai_engine/application/orchestrator.py on a job that no longer waits, and
-- `submit_job` followed by it.
use ai_microservices.Base.Value.{Fields}
use ai_microservices.Base.{
  some, Option, ◌≡◌, refl, Option-cases, inl, inr, string_eq, ℕ, String, ◌≢◌, none, ==_refl,
}
use ai_microservices.Api.Status.Diagram.{Status}
use ai_microservices.Engine.Job.{
  Exception, raised, done, JobType, AiJob, failure, mark_running, mark_failed, expected_status,
  Attempt, new_job,
}
use ai_microservices.Engine.Repository.{AiJobRepository, IsLawful}
use ai_microservices.Engine.Orchestrator.{
  Task, Clock, message_of, settle, stored, try_block, resolve_task, start_task, process_job,
  load_job, unregistered, fail_job, submit_job,
}
use ai_microservices.Engine.Orchestrator.Verdict.{Attempt-cases, verdict}
use ai_microservices.Engine.Orchestrator.Outcome.{
  Keeps, IsSettled, settle_result, given_up, given_up-IsResultOf, block, process_pending,
}

module _ (R : AiJobRepository) (lawful : IsLawful R) (registry : JobType → Option Task) where
  open R use {State, get_by_id, update, save}

  module _ (clock : Clock) (job : AiJob) (s : State) where
    -- the `try` raises where `mark_running` would
    try_escapes :
        (x : Exception)
        → mark_running clock.started job ≡ raised x
        → (e : Exception) × (try_block R registry clock job s
            ≡ block R lawful registry clock job s job s e)
    try_escapes x h = elim (Option-cases (registry job.job_type)) [
      | inl q ↦ (unregistered job.job_type, simp (try_block, resolve_task, q))
      | inr (task, q) ↦ elim (Attempt-cases (task.validate_payload job.payload)) [
        | inl (e, r) ↦ (e, simp (try_block, resolve_task, q, r))
        | inr (u, r) ↦ (x, simp (try_block, resolve_task, start_task, q, r, h))
      ]
    ]

    running_fails :
        (e : Exception)
        → job.status ≡ Status.running
        → settle R registry clock (block R lawful registry clock job s job s e)
          ≡ stored R registry
              (given_up R lawful registry clock job s e)
              (update (given_up R lawful registry clock job s e) s)
    unfolding mark_running mark_failed
    running_fails e h = simp (mark_failed, h)

    -- A running job that is stored under its own identifier and is processed a second time ends as
    -- failed, whatever its task does, and no other job changes.
    pub process_running :
        get_by_id job.job_id s ≡ done (some job)
        → job.status ≡ Status.running
        → (e : Exception) × (IsSettled R lawful registry clock job s
            (Status.failed, failure (message_of e))
            (process_job R registry clock job.job_id s))
    unfolding process_job load_job mark_running
    process_running found h =
        let (e, q) =
          try_escapes (expected_status Status.pending Status.running) (simp (mark_running, h)) in
        (
          e,
          simp (process_job, load_job, found, q, running_fails e h)
              (settle_result R lawful registry clock job s
                (given_up R lawful registry clock job s e) s _
                (given_up-IsResultOf R lawful registry clock job s e) (job, found)
                (λ k other. refl)),
        )

    refuses :
        (status : Status)
        → job.status ≡ status
        → status ≢ Status.pending
        → status ≢ Status.running
        → (mark_running clock.started job ≡ raised (expected_status Status.pending status))
          × ((m : String) → fail_job clock m job ≡ raised (expected_status Status.running status))
    unfolding mark_running mark_failed
    refuses Status.pending h p r = absurd (p refl)
    refuses Status.running h p r = absurd (r refl)
    refuses Status.completed h p r = (simp (mark_running, h), λ m. simp (fail_job, mark_failed, h))
    refuses Status.failed h p r = (simp (mark_running, h), λ m. simp (fail_job, mark_failed, h))
    refuses Status.cancelled h p r = (simp (mark_running, h), λ m. simp (fail_job, mark_failed, h))

    settle_raises :
        (e y : Exception)
        → fail_job clock (message_of e) job ≡ raised y
        → settle R registry clock (block R lawful registry clock job s job s e) ≡ (raised y, s)
    settle_raises e y h = simp (settle, h)

    -- A job that has ended (completed, failed or cancelled) is not processed again: the call raises
    -- ValueError with its status, whatever its task does, and the repository stays as it was.
    pub process_ended :
        get_by_id job.job_id s ≡ done (some job)
        → job.status ≢ Status.pending
        → job.status ≢ Status.running
        → process_job R registry clock job.job_id s
          ≡ (raised (expected_status Status.running job.status), s)
    unfolding process_job load_job
    process_ended found p r =
        let (starts, fails) = refuses job.status refl p r in
        let (e, q) = try_escapes (expected_status Status.pending job.status) starts in
        simp (process_job, load_job, found, q, settle_raises e _ (fails (message_of e)))

  stored_new :
      (j : AiJob) (x : Attempt (Unit {0}) × State)
      → x.0 ≡ done tt
      → stored R registry j x ≡ (done j, x.1)
  stored_new j (raised e, s') h = cc
  stored_new j (done tt, s') h = refl

  module _ (clock : Clock) (now now' : ℕ) (job_type : JobType) (payload tags : Fields) where
    -- A job submitted under a fresh identifier is returned and stored as pending, with all else as it
    -- was, and processing it next ends with the verdict on its type and payload.
    pub submit_process :
        (fresh_id : String) (s : State)
        → get_by_id fresh_id s ≡ done none
        → (s' : State) × (submit_job R registry fresh_id now now' job_type payload tags s
            ≡ (done (new_job fresh_id now now' job_type payload tags), s'))
          × (get_by_id fresh_id s' ≡ done (some (new_job fresh_id now now' job_type payload tags)))
          × (Keeps R lawful registry fresh_id s s')
          × (IsSettled R lawful registry clock
              (new_job fresh_id now now' job_type payload tags)
              s'
              (verdict registry job_type payload)
              (process_job R registry clock fresh_id s'))
    unfolding submit_job
    submit_process fresh_id s free =
        let job = new_job fresh_id now now' job_type payload tags in
        let saved = lawful.save_new job s free in
        let held : get_by_id fresh_id (save job s).1 ≡ done (some job) =
          simp (lawful.get-save job fresh_id s saved, ==_refl fresh_id) in
        (
          (save job s).1,
          stored_new job (save job s) saved,
          held,
          λ k other. simp (lawful.get-save job k s saved, other),
          process_pending R lawful registry clock job (save job s).1 held refl,
        )
