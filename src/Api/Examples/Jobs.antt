-- ===== src/Api/Examples/Jobs.antt =====
-- Statuses and jobs.
use ai_microservices.Base.Text.{strip}
use ai_microservices.Api.Job
use ai_microservices.Api.Status as JobStatus
use ai_microservices.Api.Result.{ok, err, value_error}
use ai_microservices.Base.Value.{end}
use ai_microservices.Api.Job.Lifecycle.{act, Action}
use ai_microservices.Api.Job.Reached.{Reached, Reached-is_valid, updated, act-Step}
use ai_microservices.Api.Job.Validity.{Rules, is_valid_iff}
use ai_microservices.Base.Int.{pos}
use ai_microservices.Api.Status.Diagram.{Step}
use ai_microservices.Api.Job.{is_valid, is_timed_out, create, end_time}
use ai_microservices.Api.Status.{can_transition, is_terminal, priority_accepted, priority_is_valid}
use ai_microservices.Base.{◌≤◌, ◌≡◌, refl, ◌↔◌, true, some, arith}
use ai_microservices.Api.Examples.{pending_job, running_job}

is_valid_iff_example : (is_valid running_job ≡ true) ↔ Rules running_job
is_valid_iff_example = is_valid_iff running_job

created_job : Reached 0 5 pending_job
unfolding create strip priority_accepted
created_job = Reached.created "j1" 5 "train" end (some "u1") (pos 5) (some (pos 5)) refl refl

started_job : Reached 1 7 running_job
unfolding Job.start can_transition JobStatus.is_valid
started_job = Reached.called Action.start created_job (omega arith) tt refl

Reached-is_valid_example : (is_valid running_job ≡ true) × (1 ≤ 2)
Reached-is_valid_example = Reached-is_valid started_job

act-Step_example :
    (Step "running" "completed"
      → act (Action.complete end) 9 running_job ≡ ok (updated (Action.complete end) 9 running_job))
    × (¬ (Step "running" "completed") → act (Action.complete end) 9 running_job ≡ err value_error)
act-Step_example = act-Step (Action.complete end) 9 running_job
