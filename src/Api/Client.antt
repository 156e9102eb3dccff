-- ===== src/Api/Client.antt =====
-- services/api_service/src/infrastructure/external/ai_worker_client.py. The session of `requests`, with
-- its retries, is an argument: what a call of it comes to. The texts of exceptions and of values are
-- arguments too.
pub mod Poll
pub mod Listing
pub mod OnWorker
use ai_microservices.Auth.Jwt.{truth}
use Prim.Native.Char.{code}
use Prim.Native.String.{◌++◌}
use ai_microservices.Base.{
  String, ℕ, Option, none, some, Bool, true, false, List, not, ◌&&◌, ltb, leb, if◌then◌else◌,
  nat_eq, string_eq, ◌==◌, pair_eq,
}
use ai_microservices.Base.Text.{truthy}
use ai_microservices.Base.Value.{Value, Fields, text, null, object, array, int, field, end, get}
use ai_microservices.Base.Int.{pos}

-- the fields hold what the response has, whatever it is
pub record JobResult : Type 0 where
  pub job_id : Value
  pub status : Value
  pub result : Value
  pub error : Value
  pub created_at : Value
  pub started_at : Value
  pub completed_at : Value
  pub model_id : Value
  pub model_version : Value

-- a RequestException with its text, or a response with its code and its JSON, if it has any
pub data Exchange : Type 0 where
  request_error : String → Exchange
  response : ℕ → Option Value → Exchange

pub data Failure : Type 0 where
  value_error : String → Failure
  timeout_error : Failure
  type_error : Failure
  -- an exception of another class
  other : Failure

pub data Call (A : Type 0) : Type 0 where
  returned : A → Call A
  raised : Failure → Call A

-- the requests of the client: GET and POST, with the parameters or the body
pub data Request : Type 0 where
  get_request : String → Fields → Request
  post_request : String → Fields → Request

-- `data.get(key, default)`
abbrev pub get_or : String → Value → Fields → Value
get_or key default claims = elim (get key claims) [ none ↦ default | some v ↦ v ]

-- `s.rstrip('/')` is taken of the address when the client is built
pub record Client : Type 0 where
  pub base_url : String
  pub timeout : ℕ
  pub poll_interval : ℕ
  pub session : Request → Exchange
  -- the text of an HTTPError, of a failed decoding, and of a value in a message
  pub http_error : ℕ → String
  pub json_error : String
  pub show : Value → String

-- `raise_for_status` raises from 400 to 599
abbrev pub is_error : ℕ → Bool
is_error status = leb 400 status && ltb status 600

module _ (c : Client) where
  open c use {base_url, session, http_error, json_error}

  -- `response.raise_for_status()` and `response.json()`, in a `try` that turns a RequestException into
  -- a ValueError
  abbrev pub decoded : String → ℕ → Option Value → Call Value
  decoded prefix status body =
      if is_error status
      then raised (value_error (prefix ++ http_error status))
      else elim body [ none ↦ raised (value_error (prefix ++ json_error)) | some v ↦ returned v ]

  abbrev pub exchanged : String → Exchange → Call Value
  exchanged prefix (request_error e) = raised (value_error (prefix ++ e))
  exchanged prefix (response status body) = decoded prefix status body

  -- the same where a 404 is a ValueError of its own
  abbrev pub found : String → String → Exchange → Call Value
  found prefix job_id (request_error e) = raised (value_error (prefix ++ e))
  found prefix job_id (response status body) =
      if status == 404
      then raised (value_error ("Job not found: " ++ job_id))
      else decoded prefix status body

  abbrev submitted : Call Value → Call Value
  submitted (raised e) = raised e
  submitted (returned (object d)) =
      let job_id = get_or "job_id" null d in
      if truth job_id then returned job_id else raised (value_error "No job_id in response")
  submitted (returned v) = raised other

  unfoldable pub submit_job : String → Fields → String → Call Value
  submit_job model_id input_data model_version = submitted (
      exchanged "Failed to submit job: " (
        session (
          post_request (base_url ++ "/api/v1/ai/jobs") (
            field "model_id" (text model_id) (
              field "model_version" (text model_version)
                (field "input_data" (object input_data) end))))))

  abbrev pub status_result : String → Fields → JobResult
  status_result job_id d = record {
    job_id = get_or "job_id" (text job_id) d;
    status = get_or "status" null d;
    result = get_or "result" null d;
    error = get_or "error" null d;
    created_at = null;
    started_at = null;
    completed_at = null;
    model_id = null;
    model_version = null;
  }

  abbrev details_result : String → Fields → JobResult
  details_result job_id d = record {
    job_id = get_or "id" (text job_id) d;
    status = get_or "status" null d;
    result = get_or "result" null d;
    error = get_or "error" null d;
    created_at = get_or "created_at" null d;
    started_at = get_or "started_at" null d;
    completed_at = get_or "completed_at" null d;
    model_id = get_or "model_id" null d;
    model_version = get_or "model_version" null d;
  }

  -- what has no `get` raises AttributeError
  abbrev pub read_result : (Fields → JobResult) → Call Value → Call JobResult
  read_result read (raised e) = raised e
  read_result read (returned (object d)) = returned (read d)
  read_result read (returned v) = raised other

  abbrev pub status_of : String → Exchange → Call JobResult
  status_of job_id e =
      read_result (status_result job_id) (found "Failed to get job status: " job_id e)

  unfoldable pub get_job_status : String → Call JobResult
  get_job_status job_id =
      status_of job_id
        (session (get_request (base_url ++ ("/api/v1/ai/jobs/" ++ (job_id ++ "/status"))) end))

  unfoldable pub get_job_details : String → Call JobResult
  get_job_details job_id = read_result (details_result job_id) (
      found "Failed to get job details: " job_id
        (session (get_request (base_url ++ ("/api/v1/ai/jobs/" ++ job_id)) end)))

  unfoldable pub get_queue_stats : Call Value
  get_queue_stats =
      exchanged "Failed to get queue stats: "
        (session (get_request (base_url ++ "/api/v1/ai/jobs/stats") end))

  abbrev cancelled_of : String → Exchange → Call Bool
  cancelled_of job_id (request_error e) = raised (value_error ("Failed to cancel job: " ++ e))
  cancelled_of job_id (response status body) =
      if status == 404
      then raised (value_error ("Job not found: " ++ job_id))
      else if status == 409
      then raised (value_error "Cannot cancel job in current state")
      else if is_error status
      then raised (value_error ("Failed to cancel job: " ++ http_error status))
      else returned true

  unfoldable pub cancel_job : String → Call Bool
  cancel_job job_id =
      cancelled_of job_id
        (session (post_request (base_url ++ ("/api/v1/ai/jobs/" ++ (job_id ++ "/cancel"))) end))
