-- ===== src/Api/Client/OnWorker.antt =====
-- `poll_until_complete` of services/api_service/src/infrastructure/external/ai_worker_client.py against
-- the route for the status of services/ai_worker/src/presentation/routes/jobs.py.
use ai_microservices.Base.Text.Search.{mentions}
use mathlib.Core.Path.{subst}
use Prim.Native.String.{◌++◌}
use ai_microservices.Base.{
  String, ℕ, Option, none, some, ◌≡◌, refl, ap, ◌∙◌, inl, inr, false, if◌then◌else◌, Option-cases,
  nat_eq, string_eq, ◌==◌, pair_eq, suc, ◌+◌, ◌⊎◌, true, [], ◌∷◌, ltb, leb, Bool-cases, contains,
  zero, arith,
}
use ai_microservices.Base.Value.{Fields, text, null, object, field, end}
use ai_microservices.Worker.JobManager.{JobManager, Job, get_job, completed, failed, cancelled}
use ai_microservices.Worker.Routes.{show_status, text_or_null, object_or_null, field_if}
use ai_microservices.Api.Client.{Client, JobResult, value_error, status_result}
use ai_microservices.Api.Client.Listing.{sent}
use ai_microservices.Api.Client.Poll.{
  World, Turn, finished, stopped, sleeps_longer, sleeps, turn, poll, polled, poll_until_complete,
  or_default, handled, examined, backoff,
}
use ai_microservices.Api.Client.Poll.Messages.{handled_failed, mentions-append}

handled_missing :
    (message : String)
    → mentions "failed" message ≡ false
    → mentions "cancelled" message ≡ false
    → mentions "job not found" message ≡ true
    → handled (value_error message) ≡ sleeps
handled_missing message a b d = simp (a, b, d, handled)

module _ (c : Client) (job_id : String) where
  -- what the client learns of a job
  abbrev pub result_for : Job → JobResult
  result_for job = record {
    job_id = text job.id;
    status = text job.status;
    result = object_or_null job.result;
    error = text_or_null job.error;
    created_at = null;
    started_at = null;
    completed_at = null;
    model_id = null;
    model_version = null;
  }

  -- a turn of the loop, by the state of the job
  abbrev pub worker_turn : Option Job → Turn
  worker_turn none = sleeps
  worker_turn (some job) =
      if completed == job.status
      then finished (result_for job)
      else if failed == job.status
      then stopped (value_error ("Job failed: " ++ c.show (text_or_null job.error)))
      else if cancelled == job.status
      then stopped (value_error "Job was cancelled")
      else sleeps_longer

  status_read :
      (id status : String) (result : Option Fields) (error : Option String)
      → status_result c job_id (
          field "job_id" (text id) (
            field "status"
              (text status)
              (field_if object "result" result (field_if text "error" error end))))
        ≡ record {
          job_id = text id;
          status = text status;
          result = object_or_null result;
          error = text_or_null error;
          created_at = null;
          started_at = null;
          completed_at = null;
          model_id = null;
          model_version = null;
        }
  status_read id status none none = refl
  status_read id status none (some e) = refl
  status_read id status (some r) none = refl
  status_read id status (some r) (some e) = refl

  examined_job : (job : Job) → examined c job_id (result_for job) ≡ worker_turn (some job)
  examined_job job = elim (Bool-cases (completed == job.status)) [
    | inl x ↦ simp (examined, x)
    | inr x ↦ elim (Bool-cases (failed == job.status)) [
      | inl y ↦
          simp (examined, x, y)
            (handled_failed ("Job failed: " ++ c.show (text_or_null job.error))
              (mentions-append "failed" "Job failed: " (c.show (text_or_null job.error)) refl))
      | inr y ↦ elim (Bool-cases (cancelled == job.status)) [
        | inl z ↦ simp (examined, x, y, z)
        | inr z ↦ simp (examined, x, y, z)
      ]
    ]
  ]

  -- A turn of the loop against the worker: a job that is completed ends it with its result, a failed
  -- or cancelled job with a ValueError, a pending or running job makes it sleep and wait longer, and a
  -- job that is not known makes it sleep, unless its identifier speaks of failure or cancellation.
  pub turn_on_worker :
      (m : JobManager)
      → mentions "failed" ("Job not found: " ++ job_id) ≡ false
      → mentions "cancelled" ("Job not found: " ++ job_id) ≡ false
      → turn c job_id (sent (show_status job_id m)) ≡ worker_turn (get_job job_id m)
  unfolding show_status
  turn_on_worker m a b = elim (Option-cases (get_job job_id m)) [
    | inl e ↦
        simp (show_status, e)
          (handled_missing ("Job not found: " ++ job_id) a b
            (mentions-append "job not found" "Job not found: " job_id refl))
    | inr (job, e) ↦
        simp (show_status, e)
          (ap (examined c job_id) (status_read job.id job.status job.result job.error)
            ∙ examined_job job)
  ]

-- Polling against the worker.
module _ (c : Client) (w : World) (job_id : String) (timeout last : ℕ)
    (states : ℕ → JobManager) where
  -- the worker answers, the time is not over until the turn `last`, and before it the job is pending,
  -- running or not known
  pub record WaitsFor : Type 0 where
    pub answers : (n : ℕ) → w.reply n ≡ sent (show_status job_id (states n))
    pub no_failed : mentions "failed" ("Job not found: " ++ job_id) ≡ false
    pub no_cancelled : mentions "cancelled" ("Job not found: " ++ job_id) ≡ false
    pub in_time : (n : ℕ) → leb n last ≡ true → ltb (w.start_time + timeout) (w.clock n) ≡ false
    pub open_before :
        (n : ℕ)
        → ltb n last ≡ true
        → (get_job job_id (states n) ≡ none)
          ⊎ ((job : Job) × (get_job job_id (states n) ≡ some job)
              × (contains (completed ∷ failed ∷ cancelled ∷ []) job.status ≡ false))

  module _ (law : WaitsFor) where
    answer_at :
        (n : ℕ) → turn c job_id (w.reply n) ≡ worker_turn c job_id (get_job job_id (states n))
    answer_at n =
        ap (turn c job_id) (law.answers n)
        ∙ turn_on_worker c job_id (states n) law.no_failed law.no_cancelled

    open_turn :
        (job : Job)
        → contains (completed ∷ failed ∷ cancelled ∷ []) job.status ≡ false
        → worker_turn c job_id (some job) ≡ sleeps_longer
    open_turn job h = ground (arith, h)

    turn_before :
        (n : ℕ)
        → ltb n last ≡ true
        → (turn c job_id (w.reply n) ≡ sleeps) ⊎ (turn c job_id (w.reply n) ≡ sleeps_longer)
    turn_before n h = elim (law.open_before n h) [
      | inl e ↦ inl (answer_at n ∙ ap (worker_turn c job_id) e)
      | inr (job, e, p) ↦ inr (answer_at n ∙ ap (worker_turn c job_id) e ∙ open_turn job p)
    ]

    turn_last :
        (job : Job)
        → get_job job_id (states last) ≡ some job
        → (completed == job.status) ≡ true
        → turn c job_id (w.reply last) ≡ finished (result_for c job_id job)
    turn_last job e p = answer_at last ∙ ap (worker_turn c job_id) e ∙ simp p

    loop_reaches :
        (fuel n interval : ℕ) (r : JobResult)
        → n + fuel ≡ last
        → turn c job_id (w.reply last) ≡ finished r
        → poll c w job_id timeout (suc fuel) n interval ≡ polled r
    unfolding poll
    loop_reaches zero n interval r up e =
        let same : last ≡ n = ground (arith, up) in
        let e' = subst (λ k. turn c job_id (w.reply k) ≡ finished r) same e in
        simp (poll, law.in_time n (ground (arith, up)), e')
    loop_reaches (suc fuel) n interval r up e = elim (turn_before n (ground (arith, up))) [
      | inl t ↦
          simp (poll, law.in_time n (ground (arith, up)), t)
            (loop_reaches fuel (suc n) interval r (ground (arith, up)) e)
      | inr t ↦
          simp (poll, law.in_time n (ground (arith, up)), t)
            (loop_reaches fuel (suc n) (backoff w interval) r (ground (arith, up)) e)
    ]

-- Polling the worker returns the result of a job that is completed at some turn, where the worker
-- answers each turn, the time is not over until then, and the job is pending, running or not known
-- before; the identifier does not speak of failure or cancellation.
pub polls_completed_job :
    (c : Client) (w : World) (job_id : String) (timeout poll_interval : Option ℕ) (last : ℕ)
    (states : ℕ → JobManager) (job : Job)
    → WaitsFor c w job_id (or_default timeout c.timeout) last states
    → get_job job_id (states last) ≡ some job
    → (completed == job.status) ≡ true
    → poll_until_complete c w job_id timeout poll_interval (suc last)
      ≡ polled (result_for c job_id job)
unfolding poll_until_complete
polls_completed_job c w job_id timeout poll_interval last states job law found ended =
    loop_reaches c w job_id (or_default timeout c.timeout) last states law last 0
      (or_default poll_interval c.poll_interval) (result_for c job_id job) (ground arith)
      (turn_last c w job_id (or_default timeout c.timeout) last states law job found ended)
