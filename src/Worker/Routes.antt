-- ===== src/Worker/Routes.antt =====
-- services/ai_worker/src: the routes of presentation/routes/jobs.py over the job manager, and `to_dict` of
-- its jobs. The body of a submission has the types that its documentation names. What `int` reads of the
-- limit and `isoformat` are arguments.
use ai_microservices.Base.Text.{truthy}
use Prim.Native.String.{◌++◌}
use ai_microservices.Base.{
  String, ℕ, Option, none, some, List, Bool, true, false, not, [], ◌∷◌, if◌then◌else◌, length,
}
use ai_microservices.Base.Int.{pos}
use ai_microservices.Base.Value.{
  Value, Fields, field, end, text, null, object, array, int, Items, nil, cons,
}
use ai_microservices.Worker.JobManager.{JobManager, Job, create_job, get_job, list_jobs, cancel_job}

pub record Response : Type 0 where
  pub code : ℕ
  pub body : Fields

abbrev pub text_or_null : Option String → Value
text_or_null none = null
text_or_null (some s) = text s

abbrev pub object_or_null : Option Fields → Value
object_or_null none = null
object_or_null (some d) = object d

abbrev pub error_response : ℕ → String → Response
error_response code message = record { code = code; body = field "error" (text message) end }

pub record Submission : Type 0 where
  pub model_id : String
  pub model_version : Option String
  pub input_data : Option Fields

module _ (isoformat : ℕ → String) where
  abbrev date_or_null : Option ℕ → Value
  date_or_null none = null
  date_or_null (some t) = text (isoformat t)

  -- `Job.to_dict`
  abbrev pub to_dict : Job → Fields
  to_dict j = field "id" (text j.id) (
      field "status" (text j.status) (
        field "payload" (object j.payload) (
          field "result" (object_or_null j.result) (
            field "error" (text_or_null j.error) (
              field "created_at" (text (isoformat j.created_at)) (
                field "started_at" (date_or_null j.started_at) (
                  field "completed_at" (date_or_null j.completed_at) (
                    field "model_id" (text_or_null j.model_id)
                      (field "model_version" (text_or_null j.model_version) end)))))))))

  abbrev version_or_default : Option String → String
  version_or_default none = "1.0"
  version_or_default (some v) = v

  abbrev input_or_empty : Option Fields → Fields
  input_or_empty none = end
  input_or_empty (some d) = d

  -- the job just created; without it `job.status` would raise
  abbrev created : String × JobManager → Response × JobManager
  created (job_id, m) = elim (get_job job_id m) [
    | none ↦ (error_response 500 "'NoneType' object has no attribute 'status'", m)
    | some job ↦ (
      record {
        code = 202;
        body = field "job_id" (text job_id) (
            field "status" (text job.status) (
              field "created_at" (text (isoformat job.created_at)) (
                field "message"
                  (text "Job submitted successfully. Poll GET /jobs/{job_id} for results.") end)));
      },
      m,
    )
  ]

  -- the manager reads the clock three times
  unfoldable pub post_job :
      String → ℕ → ℕ → ℕ → Option Submission → JobManager → Response × JobManager
  post_job fresh_id now now' now'' none m = (error_response 400 "Request body required", m)
  post_job fresh_id now now' now'' (some request) m =
      if not (truthy request.model_id)
      then (error_response 400 "model_id required", m)
      else created (
          create_job fresh_id now now' now'' (input_or_empty request.input_data)
            (some request.model_id) (some (version_or_default request.model_version)) m)

  unfoldable pub show_job : String → JobManager → Response
  show_job job_id m = elim (get_job job_id m) [
    | none ↦ error_response 404 ("Job not found: " ++ job_id)
    | some job ↦ record { code = 200; body = to_dict job }
  ]

  abbrev pub items_of : List Job → Items
  items_of [] = nil
  items_of (j ∷ js) = cons (object (to_dict j)) (items_of js)

  -- a limit of none is the ValueError of `int`
  unfoldable pub show_jobs : Option String → Option ℕ → JobManager → Response
  show_jobs status none m = error_response 400 "Invalid query parameter"
  show_jobs status (some limit) m =
      let jobs = list_jobs status limit m in
      record {
        code = 200;
        body = field "jobs" (array (items_of jobs)) (field "total" (int (pos (length jobs))) end);
      }

  abbrev cancelled_body : Option Job → Response
  cancelled_body none = error_response 500 "'NoneType' object has no attribute 'id'"
  cancelled_body (some job) = record {
    code = 200;
    body = field "job_id" (text job.id) (
        field "status" (text job.status)
          (field "cancelled_at" (date_or_null job.completed_at) end));
  }

  abbrev cancellation : String → Job → Bool × JobManager → Response × JobManager
  cancellation job_id job (false, m) =
      (error_response 409 ("Cannot cancel job in state: " ++ job.status), m)
  cancellation job_id job (true, m) = (cancelled_body (get_job job_id m), m)

  unfoldable pub post_cancel : ℕ → String → JobManager → Response × JobManager
  post_cancel now job_id m = elim (get_job job_id m) [
    | none ↦ (error_response 404 ("Job not found: " ++ job_id), m)
    | some job ↦ cancellation job_id job (cancel_job now job_id m)
  ]

-- `if value is not None: response[key] = value`
abbrev pub field_if : {A : Type 0} → (A → Value) → String → Option A → Fields → Fields
field_if value key none rest = rest
field_if value key (some a) rest = field key (value a) rest

abbrev pub status_body : Job → Fields
status_body job = field "job_id" (text job.id) (
    field "status" (text job.status)
      (field_if object "result" job.result (field_if text "error" job.error end)))

unfoldable pub show_status : String → JobManager → Response
show_status job_id m = elim (get_job job_id m) [
  | none ↦ error_response 404 ("Job not found: " ++ job_id)
  | some job ↦ record { code = 200; body = status_body job }
]
