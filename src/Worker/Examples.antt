-- ===== src/Worker/Examples.antt =====
-- The theorems of the job manager at a manager with one job.
use ai_microservices.Base.{refl, none, [], ◌∷◌, some, nat_eq, string_eq, pair_eq}
use ai_microservices.Base.Value.{end}
use ai_microservices.Api.Status.Diagram.{Status}
use ai_microservices.Worker.JobManager.{Job, JobManager, get_job, complete_job}
use ai_microservices.Worker.JobManager.Calls.{Call, perform}
use ai_microservices.Worker.JobManager.Steps.{Move, Stepped, perform_follows_Move}

abbrev pending_job : Job
pending_job = record {
  id = "j1";
  status = "pending";
  payload = end;
  result = none;
  error = none;
  created_at = 5;
  started_at = none;
  completed_at = none;
  model_id = none;
  model_version = none;
}

abbrev manager : JobManager
manager = record {
  jobs = ("j1", pending_job) ∷ [];
  retention_days = 7;
  cleanup_interval_hours = 1;
  last_cleanup = 0;
  published = [];
}

perform_follows_Move_example :
    Stepped Move Status.pending "j1" (perform (Call.complete end) 9 "j1" manager).1
unfolding complete_job get_job
perform_follows_Move_example =
    perform_follows_Move 9 "j1" manager pending_job refl (Call.complete end) Status.pending refl
      refl

-- a manager whose job ended eight days ago
abbrev old_manager : JobManager
old_manager = record manager {
  jobs = ("j1", record pending_job { status = "completed"; completed_at = some 0 }) ∷ [];
}
