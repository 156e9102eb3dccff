-- ===== src/Api/Examples/Polls.antt =====
-- A client that polls a worker with one completed job.
use ai_microservices.Base.Int.{pos}
use mathlib.Core.Path.{subst}
use ai_microservices.Base.{
  ℕ, suc, ◌+◌, ◌*◌, String, none, some, [], ◌∷◌, zero, ◌≡◌, refl, ◌≢◌, inl, arith,
}
use ai_microservices.Base.Value.{end}
use ai_microservices.Worker.JobManager.{JobManager, Job, get_job}
use ai_microservices.Worker.JobManager as Manager
use ai_microservices.Worker.Routes.{show_status, show_jobs}
use ai_microservices.Api.Client.{Client, request_error, value_error}
use ai_microservices.Api.Client.Listing.{sent, list_jobs, list_jobs_on_worker, only_none}
use ai_microservices.Api.Client.Poll.{
  World, poll, poll_until_complete, polled, gave_up, out_of_fuel,
}
use ai_microservices.Api.Client.Poll.Ends.{poll_until_complete_ends, TakesTime, interval_short}
use ai_microservices.Api.Client.Poll.Returned.{
  poll_until_complete_polled, IsPolled, request_error_raised,
}
use ai_microservices.Api.Client.OnWorker.{polls_completed_job, WaitsFor, result_for}

abbrev job : Job
job = record {
  id = "j1";
  status = "completed";
  payload = end;
  result = some end;
  error = none;
  created_at = 1;
  started_at = some 2;
  completed_at = some 3;
  model_id = none;
  model_version = none;
}

abbrev worker : JobManager
worker = record {
  jobs = ("j1", job) ∷ [];
  retention_days = 7;
  cleanup_interval_hours = 24;
  last_cleanup = 0;
  published = [];
}

abbrev no_jobs : JobManager
no_jobs = record worker { jobs = [] }

abbrev iso : ℕ → String
iso t = "t"

-- the worker has stored nothing at the first turn
abbrev states : ℕ → JobManager
states zero = no_jobs
states (suc n) = worker

abbrev client : Client
client = record {
  base_url = "http://w";
  timeout = 60000000;
  poll_interval = 2000000;
  session = λ request. sent (show_jobs iso none (some 9) worker);
  http_error = λ code. "error";
  json_error = "no JSON";
  show = λ v. "v";
}

-- a clock that a turn moves by ten seconds
abbrev world : World
world = record {
  start_time = 0;
  clock = λ n. n * 10000000;
  reply = λ n. sent (show_status "j1" (states n));
  half_as_much_again = λ i. i + i;
}

absent : get_job "j1" no_jobs ≡ none
unfolding get_job
absent = refl

present : get_job "j1" worker ≡ some job
unfolding get_job
present = refl

takes_time : TakesTime client world "j1" 2000000
takes_time = record {
  grows = λ i. ground arith;
  started = refl;
  passes = λ n. ground (arith, interval_short client world "j1" 2000000 refl n);
}

poll_until_complete_ends_example : poll_until_complete client world "j1" none none 32 ≢ out_of_fuel
poll_until_complete_ends_example =
    poll_until_complete_ends client world "j1" none none 31 takes_time refl

waits_for : WaitsFor client world "j1" 60000000 1 states
waits_for = record {
  answers = λ n. refl;
  no_failed = refl;
  no_cancelled = refl;
  in_time = λ n h. ground (arith, h);
  open_before = λ n h.
      let zero_ : zero ≡ n = ground (arith, h) in
      inl (subst (λ k. get_job "j1" (states k) ≡ none) zero_ absent);
}

polls_completed_job_example :
    poll_until_complete client world "j1" none none 2 ≡ polled (result_for client "j1" job)
polls_completed_job_example =
    polls_completed_job client world "j1" none none 1 states job waits_for present refl

poll_until_complete_polled_example :
    IsPolled client world "j1" 60000000 0 2 (result_for client "j1" job)
poll_until_complete_polled_example =
    poll_until_complete_polled client world "j1" none none 2 (result_for client "j1" job)
      (polls_completed_job client world "j1" none none 1 states job waits_for present refl)

abbrev broken : World
broken = record world { reply = λ n. request_error "connection refused" }

request_error_raised_example :
    poll client broken "j1" 60000000 8 0 2000000
    ≡ gave_up (value_error "Failed to get job status: connection refused")
request_error_raised_example =
    request_error_raised client broken "j1" 60000000 7 0 2000000 "connection refused" refl refl

list_jobs_on_worker_example :
    list_jobs client none (pos 9) ≡ only_none (Manager.list_jobs none 9 worker)
list_jobs_on_worker_example = list_jobs_on_worker client iso none 9 worker refl
