-- ===== src/Api/Examples.antt =====
-- The theorems of the API service at concrete jobs, stores and services.
mod Jobs
mod Store
mod Calls
mod Requests
mod Polls
mod Tokens
use ai_microservices.Base.{ℕ, String, true, Option, none, some, [], ◌∷◌}
use ai_microservices.Base.Dict.{Dict}
use ai_microservices.Base.Int.{pos}
use ai_microservices.Base.Value.{Fields, end}
use ai_microservices.Api.Job.{Job}

abbrev pub pending_job : Job
pending_job = record {
  id = "j1";
  user_id = some "u1";
  job_type = "train";
  status = "pending";
  priority = pos 5;
  input_data = end;
  result = none;
  error = none;
  created_at = 5;
  started_at = none;
  completed_at = none;
  timeout_seconds = some (pos 5);
}

abbrev pub running_job : Job
running_job = record pending_job { status = "running"; started_at = some 7 }

abbrev pub completed_job : Job
completed_job = record running_job {
  status = "completed";
  completed_at = some 9;
  result = some end;
}

-- two jobs of one user
abbrev pub two_jobs : Dict String Job
two_jobs = ("j1", pending_job) ∷ ("j2", record completed_job { id = "j2"; priority = pos 3 }) ∷ []
