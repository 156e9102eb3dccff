-- ===== src/Engine/Race/Lost.antt =====
-- Runs of `process_job` and `cancel_job` on one job in which an accepted cancellation does not last
-- (ai_engine/application/async_orchestrator.py, ai_engine/infrastructure/workers/async_job_worker.py).
use ai_microservices.Base.{ℕ, String, ◌≡◌, refl, true, some}
use ai_microservices.Api.Status.Diagram.{Status}
use ai_microservices.Engine.Job.{
  Attempt, done, AiJob, mark_running, cancel, JobResult, mark_completed,
}
use ai_microservices.Engine.Orchestrator.{Task, Clock, conclude}
use ai_microservices.Engine.Race.{
  store, returned, Process, scheduled, loaded, starting, executing, interrupted, Canceller, idle,
  accepted, System, system, Step, Reach, prepare, prepared, handled, executed, asked, after, load,
  begin, announce, execute, request, confirm, interrupt, here, next,
}

module _ (clock : Clock) (shown : Status → String) (now : ℕ) (task : Task) where
  abbrev Run : System → System → Type 0
  Run = Reach clock shown now task

  begin_with :
      (j k : AiJob) (c : Canceller) (r : Attempt AiJob)
      → prepare clock shown now task j ≡ r
      → Step clock shown now task
          (system k (loaded j) c)
          (system k (prepared clock shown now task j r) c)
  begin_with j k c r e = rw⁻¹ e (begin j k c)

  request_with :
      (k : AiJob) (p : Process) (r : Attempt AiJob)
      → cancel shown now k ≡ r
      → Step clock shown now task (system k p idle) (system k p (asked clock shown now task r))
  request_with k p r e = rw⁻¹ e (request k p)

  execute_with :
      (j k : AiJob) (c : Canceller) (r : Attempt AiJob)
      → handled clock shown now task j (after clock shown now task j (task.execute j.payload)) ≡ r
      → Step clock shown now task
          (system k (executing j) c)
          (system k (executed clock shown now task r) c)
  execute_with j k c r e = rw⁻¹ e (execute j k c)

  module _ (j : AiJob) (pending : j.status ≡ Status.pending)
      (valid : task.validate_payload j.payload ≡ done tt) where
    abbrev run : AiJob
    run = record j { status = Status.running; updated_at = clock.started }

    prepare_runs : prepare clock shown now task j ≡ done run
    unfolding mark_running
    prepare_runs = simp (prepare, valid, mark_running, pending)

    cancel_waiting :
        cancel shown now j ≡ done (record j { status = Status.cancelled; updated_at = now })
    unfolding cancel
    cancel_waiting = simp (cancel, pending)

    abbrev started : Run (system j scheduled idle) (system j (starting run) idle)
    started = next (next here (load j idle)) (begin_with j j idle (done run) prepare_runs)

    -- A pending job whose task accepts the payload can be left running for ever by a worker that
    -- cancels it: the cancellation is accepted, then the coroutine that processes the job stores
    -- it as running, and is interrupted.
    pub interrupted_running :
        (s : System) × (Run (system j scheduled idle) s)
        × (s.stored.status ≡ Status.running)
        × (s.process ≡ interrupted)
        × (k : AiJob) × (s.canceller ≡ accepted k)
        × (k.status ≡ Status.cancelled)
    interrupted_running = (
      _,
      next
          (next
            (next (next started (request_with j (starting run) _ cancel_waiting))
              (confirm _ j (starting run)))
            (announce run _ _))
          (interrupt _ run (executing run) tt),
      refl,
      refl,
      _,
      refl,
      refl,
    )

    cancel_started :
        cancel shown now run ≡ done (record j { status = Status.cancelled; updated_at = now })
    unfolding cancel
    cancel_started = refl

    module _ (result : JobResult) (executes : task.execute j.payload ≡ done result)
        (succeeds : result.success ≡ true) where
      abbrev completed : AiJob
      completed = record j {
        status = Status.completed;
        result = some result;
        updated_at = clock.finished;
      }

      execute_completes :
          handled clock shown now task run (after clock shown now task run (task.execute j.payload))
          ≡ done completed
      unfolding mark_completed
      execute_completes = simp (executes, conclude, mark_completed, succeeds)

      -- A pending job whose task accepts the payload and succeeds can end as completed although its
      -- cancellation was accepted while it was stored as running, and was stored: the coroutine that
      -- processes the job stores its own copy over the cancelled one.
      pub cancellation_lost :
          (asked_at : System) × (Run (system j scheduled idle) asked_at)
          × (asked_at.stored.status ≡ Status.running)
          × (asked_at.canceller ≡ idle)
          × (k : AiJob) × (cancel shown now asked_at.stored ≡ done k)
          × (k.status ≡ Status.cancelled)
          × (stored_at : System) × (Run asked_at stored_at)
          × (stored_at.stored ≡ k)
          × (stored_at.canceller ≡ accepted k)
          × (s : System) × (Run stored_at s)
          × (s.stored ≡ completed)
          × (s.process ≡ returned completed)
      cancellation_lost = (
        system run (executing run) idle,
        next started (announce run j idle),
        refl,
        refl,
        _,
        cancel_started,
        refl,
        _,
        next (next here (request_with run (executing run) _ cancel_started))
            (confirm _ run (executing run)),
        refl,
        refl,
        _,
        next (next here (execute_with run _ _ _ execute_completes)) (store completed _ _),
        refl,
        refl,
      )
