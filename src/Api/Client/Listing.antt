-- ===== src/Api/Client/Listing.antt =====
-- `list_jobs` of services/api_service/src/infrastructure/external/ai_worker_client.py, and what it makes
-- of the listing of the worker.
use ai_microservices.Base.Maybe.{◌>>=◌}
use ai_microservices.Base.Text.{truthy}
use Prim.Native.String.{◌++◌}
use ai_microservices.Base.{
  String, ℕ, Option, none, some, List, ◌≡◌, refl, Bool, true, ◌&&◌, [], ◌∷◌, if◌then◌else◌, nat_eq,
  string_eq, pair_eq, contains,
}
use ai_microservices.Base.Int.{ℤ, pos}
use ai_microservices.Base.Value.{
  Value, Fields, text, null, object, array, int, field, end, get, Items, nil, cons,
}
use ai_microservices.Worker.JobManager.{JobManager, Job}
use ai_microservices.Worker.JobManager as Manager
use ai_microservices.Worker.Routes.{Response, show_jobs, items_of}
use ai_microservices.Api.Client.{
  Client, JobResult, Exchange, response, Call, returned, raised, other, type_error, exchanged,
  get_or, get_request,
}

abbrev field_names : List String
field_names =
    "job_id" ∷ "status" ∷ "result" ∷ "error" ∷ "created_at" ∷ "started_at" ∷ "completed_at"
    ∷ "model_id" ∷ "model_version" ∷ []

abbrev known_fields : Fields → Bool
known_fields end = true
known_fields (field k v fs) = contains field_names k && known_fields fs

-- `JobResult(**job)`: none is the TypeError on a field that is unknown or missing
abbrev result_from : Fields → Option JobResult
result_from d = do
  job_id ← get "job_id" d
  status ← get "status" d
  if known_fields d
      then some (record {
        job_id = job_id;
        status = status;
        result = get_or "result" null d;
        error = get_or "error" null d;
        created_at = get_or "created_at" null d;
        started_at = get_or "started_at" null d;
        completed_at = get_or "completed_at" null d;
        model_id = get_or "model_id" null d;
        model_version = get_or "model_version" null d;
      })
      else none

abbrev result_of : Value → Option JobResult
result_of (object d) = result_from d
result_of v = none

abbrev results_of : Items → Option (List JobResult)
results_of nil = some []
results_of (cons v vs) = do r ← result_of v; rs ← results_of vs; some (r ∷ rs)

abbrev or_type_error : Option (List JobResult) → Call (List JobResult)
or_type_error none = raised type_error
or_type_error (some rs) = returned rs

-- the loop over `jobs_data`: a text or a dictionary is gone through by its parts, which are texts
abbrev built : Value → Call (List JobResult)
built (array vs) = or_type_error (results_of vs)
built (text s) = if truthy s then raised type_error else returned []
built (object end) = returned []
built v = raised type_error

-- what has no `get` raises AttributeError
abbrev pub listed : Call Value → Call (List JobResult)
listed (raised e) = raised e
listed (returned (object d)) = built (get_or "jobs" (array nil) d)
listed (returned v) = raised other

-- `if status: params["status"] = status`
abbrev status_param : Option String → Fields
status_param none = end
status_param (some s) = if truthy s then field "status" (text s) end else end

unfoldable pub list_jobs : Client → Option String → ℤ → Call (List JobResult)
list_jobs c status limit = listed (
    exchanged c "Failed to list jobs: " (
      c.session (
        get_request (c.base_url ++ "/api/v1/ai/jobs")
          (field "limit" (int limit) (status_param status)))))

-- a response of the worker, as the client sees it
abbrev pub sent : Response → Exchange
sent r = response r.code (some (object r.body))

-- what the client makes of the jobs that the worker lists
abbrev pub only_none : List Job → Call (List JobResult)
only_none [] = returned []
only_none (j ∷ js) = raised type_error

built_items :
    (isoformat : ℕ → String) (js : List Job) → built (array (items_of isoformat js)) ≡ only_none js
built_items isoformat [] = refl
built_items isoformat (j ∷ js) = refl

-- Where the worker's route answers the listing of the client, the client lists no jobs if there are
-- none that are asked for, and raises TypeError if there is one: a job of the worker has the fields id
-- and payload, which JobResult has not.
pub list_jobs_on_worker :
    (c : Client) (isoformat : ℕ → String) (status : Option String) (limit : ℕ) (m : JobManager)
    → c.session (
        get_request
          (c.base_url ++ "/api/v1/ai/jobs")
          (field "limit" (int (pos limit)) (status_param status)))
      ≡ sent (show_jobs isoformat status (some limit) m)
    → list_jobs c status (pos limit) ≡ only_none (Manager.list_jobs status limit m)
unfolding list_jobs show_jobs
list_jobs_on_worker c isoformat status limit m answers =
    simp (list_jobs, answers) (built_items isoformat (Manager.list_jobs status limit m))
