-- ===== src/Engine/Orchestrator/Outcome.antt =====
-- `process_job` of ai_engine/application/orchestrator.py on a job that waits, against its verdict.
use ai_microservices.Engine.Job.{
  Exception, Attempt, raised, done, JobType, JobResult, AiJob, failure, mark_running, mark_failed,
  mark_completed,
}
use ai_microservices.Engine.Repository.{AiJobRepository, IsLawful}
use ai_microservices.Base.{
  String, Bool, true, false, Option, some, string_eq, ◌==◌, if◌then◌else◌, ◌≡◌, refl, inl, inr,
  nat_eq, pair_eq, ◌∙◌, ==_refl, Option-cases,
}
use ai_microservices.Api.Status.Diagram.{Status}
use ai_microservices.Engine.Orchestrator.{
  Task, Clock, message_of, failure_message, settle, stored, Block, run_task, finish, start_task,
  try_block, resolve_task, process_job, load_job, try_block, process_job, load_job, ended,
  unregistered,
}
use ai_microservices.Engine.Orchestrator.Verdict.{
  Attempt-cases, judged, attempted, verdict, IsResultOf,
}

module _ (R : AiJobRepository) (lawful : IsLawful R) (registry : JobType → Option Task) where
  open R use {State, get_by_id, update}

  abbrev pub Stores : String → State → Type 0
  Stores i s = (k : AiJob) × (get_by_id i s ≡ done (some k))

  abbrev pub Keeps : String → State → State → Type 0
  Keeps i s s' = (k : String) → (i == k) ≡ false → get_by_id k s' ≡ get_by_id k s

  module _ (clock : Clock) (job : AiJob) (s : State) where
    -- The call returns the result, the repository holds it, and all else is as it was.
    pub record IsSettled (v : Status × JobResult) (r : Attempt AiJob × State) : Type 0 where
      pub returned : AiJob
      pub returns : r.0 ≡ done returned
      pub holds : get_by_id job.job_id r.1 ≡ done (some returned)
      pub result_of : IsResultOf job v returned
      pub keeps : Keeps job.job_id s r.1

    stored_done :
        (j : AiJob) (x : Attempt (Unit {0}) × State)
        → x.0 ≡ done tt
        → stored R registry j x ≡ (done j, x.1)
    stored_done j (raised e, s') h = cc
    stored_done j (done tt, s') h = refl

    update-Keeps :
        (j : AiJob) (s' : State)
        → j.job_id ≡ job.job_id
        → Stores job.job_id s'
        → ((update j s').0 ≡ done tt)
          × (get_by_id job.job_id (update j s').1 ≡ done (some j))
          × (Keeps job.job_id s' (update j s').1)
    update-Keeps j s' same (k, found) =
        let updated = lawful.update_found j k s' (rw same found) in
        (
          updated,
          simp (lawful.get-update j job.job_id s' updated, same, ==_refl job.job_id),
          λ i other. simp (lawful.get-update j i s' updated, same, other),
        )

    pub settle_result :
        (j : AiJob) (s' : State) (v : Status × JobResult)
        → IsResultOf job v j
        → Stores job.job_id s'
        → Keeps job.job_id s s'
        → IsSettled v (stored R registry j (update j s'))
    settle_result j s' v h found keeps =
        let (updated, holds, kept) = update-Keeps j s' h.job_id_kept found in
        rw (stored_done j (update j s') updated) (record {
          returned = j;
          returns = refl;
          holds = holds;
          result_of = h;
          keeps = λ k other. kept k other ∙ keeps k other;
        })

    abbrev running : AiJob
    running = record job { status = Status.running; updated_at = clock.started }

    abbrev pub failed : Exception → Status × JobResult
    failed e = (Status.failed, failure (message_of e))

    abbrev pub given_up : Exception → AiJob
    given_up e = record job {
      status = Status.failed;
      result = some (failure (message_of e));
      updated_at = clock.given_up;
    }

    abbrev pub block : AiJob → State → Exception → Block R registry
    block j s' e = record { job = j; store = s'; escaped = some e }

    pub given_up-IsResultOf : (e : Exception) → IsResultOf job (failed e) (given_up e)
    given_up-IsResultOf e = record {
      status_is = refl;
      result_is = refl;
      job_id_kept = refl;
      job_type_kept = refl;
      payload_kept = refl;
      tags_kept = refl;
      created_at_kept = refl;
    }

    waiting_fails :
        (e : Exception)
        → job.status ≡ Status.pending
        → settle R registry clock (block job s e)
          ≡ stored R registry (given_up e) (update (given_up e) s)
    unfolding mark_running mark_failed
    waiting_fails e h = simp (mark_running, h)

    running_fails :
        (e : Exception) (s' : State)
        → settle R registry clock (block running s' e)
          ≡ stored R registry (given_up e) (update (given_up e) s')
    unfolding mark_running mark_failed
    running_fails e s' = refl

    waiting-IsSettled :
        (e : Exception)
        → job.status ≡ Status.pending
        → Stores job.job_id s
        → IsSettled (failed e) (settle R registry clock (block job s e))
    waiting-IsSettled e h found =
        rw (waiting_fails e h)
          (settle_result (given_up e) s (failed e) (given_up-IsResultOf e) found (λ k other. refl))

    -- the two branches on `result.success`
    branch-IsSettled :
        (result : JobResult) (success : Bool) (s' : State)
        → Stores job.job_id s'
        → Keeps job.job_id s s'
        → IsSettled
            (if success
              then (Status.completed, result)
              else (Status.failed, failure (failure_message result.error)))
            (settle R registry clock (
              ended R registry
                (if success
                  then mark_completed clock.finished result running
                  else mark_failed clock.finished (failure_message result.error) running)
                running
                s'))
    unfolding mark_running mark_failed mark_completed
    branch-IsSettled result true s' found keeps =
        settle_result _ s' (Status.completed, result)
          (record {
            status_is = refl;
            result_is = refl;
            job_id_kept = refl;
            job_type_kept = refl;
            payload_kept = refl;
            tags_kept = refl;
            created_at_kept = refl;
          })
          found keeps
    branch-IsSettled result false s' found keeps =
        settle_result _ s' (Status.failed, failure (failure_message result.error))
          (record {
            status_is = refl;
            result_is = refl;
            job_id_kept = refl;
            job_type_kept = refl;
            payload_kept = refl;
            tags_kept = refl;
            created_at_kept = refl;
          })
          found keeps

    finish-IsSettled :
        (a : Attempt JobResult) (s' : State)
        → Stores job.job_id s'
        → Keeps job.job_id s s'
        → IsSettled
            (judged registry a)
            (settle R registry clock (finish R registry clock.finished a running s'))
    unfolding mark_running mark_failed
    finish-IsSettled (raised e) s' found keeps =
        settle_result (given_up e) s' (failed e) (given_up-IsResultOf e) found keeps
    finish-IsSettled (done result) s' found keeps =
        branch-IsSettled result result.success s' found keeps

    start_waiting :
        (task : Task)
        → job.status ≡ Status.pending
        → start_task R registry clock task job s
          ≡ run_task R registry clock task running (update running s)
    unfolding mark_running
    start_waiting task h = simp (start_task, mark_running, h)

    run_task_stored :
        (task : Task) (x : Attempt (Unit {0}) × State)
        → x.0 ≡ done tt
        → run_task R registry clock task running x
          ≡ finish R registry clock.finished (task.execute job.payload) running x.1
    run_task_stored task (raised e, s') h = cc
    run_task_stored task (done tt, s') h = refl

    start-IsSettled :
        (task : Task)
        → job.status ≡ Status.pending
        → Stores job.job_id s
        → IsSettled
            (judged registry (task.execute job.payload))
            (settle R registry clock (start_task R registry clock task job s))
    start-IsSettled task h found =
        let (updated, holds, kept) = update-Keeps running s refl found in
        rw (start_waiting task h, run_task_stored task (update running s) updated)
          (finish-IsSettled (task.execute job.payload) (update running s).1 (running, holds) kept)

    try-IsSettled :
        job.status ≡ Status.pending
        → Stores job.job_id s
        → IsSettled
            (verdict registry job.job_type job.payload)
            (settle R registry clock (try_block R registry clock job s))
    try-IsSettled h found = elim (Option-cases (registry job.job_type)) [
      | inl e ↦
          simp (verdict, attempted, try_block, resolve_task, e)
            (waiting-IsSettled (unregistered job.job_type) h found)
      | inr (task, e) ↦ elim (Attempt-cases (task.validate_payload job.payload)) [
        | inl (x, q) ↦
            simp (verdict, attempted, try_block, resolve_task, e, q) (waiting-IsSettled x h found)
        | inr (u, q) ↦
            simp (verdict, attempted, try_block, resolve_task, e, q) (start-IsSettled task h found)
      ]
    ]

  -- Over a lawful repository, processing a pending job that is stored under its own identifier
  -- always returns: the job it returns is what the repository then holds, it is the same job with
  -- the status and the result of the verdict (completed with the task's result if the task is
  -- registered, accepts the payload and reports success, and otherwise failed with the message of
  -- what went wrong), and no other job changes.
  pub process_pending :
      (clock : Clock) (job : AiJob) (s : State)
      → get_by_id job.job_id s ≡ done (some job)
      → job.status ≡ Status.pending
      → IsSettled clock job s
          (verdict registry job.job_type job.payload)
          (process_job R registry clock job.job_id s)
  unfolding process_job load_job
  process_pending clock job s found h =
      simp (process_job, load_job, found) (try-IsSettled clock job s h (job, found))
