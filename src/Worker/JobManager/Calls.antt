-- ===== src/Worker/JobManager/Calls.antt =====
-- Which steps the methods of the job manager allow, and what they leave alone.
use ai_microservices.Base.{
  ℕ, String, ◌≡◌, ◌≢◌, Bool, false, Option, arith, nat_eq, string_eq, pair_eq, eq_iff,
}
use ai_microservices.Base.Dict.{lookup-insert}
use ai_microservices.Base.Value.{Fields}
use ai_microservices.Worker.JobManager.{
  JobManager, get_job, put_job, start_job, complete_job, fail_job, cancel_job, update_job_status,
}

-- The calls that move a job.
pub data Call : Type 0 where
  start cancel : Call
  complete : Fields → Call
  fail : String → Call
  update : String → Option Fields → Option String → Call

abbrev pub perform : Call → ℕ → String → JobManager → Bool × JobManager
perform start now job_id m = start_job now job_id m
perform cancel now job_id m = cancel_job now job_id m
perform (complete r) now job_id m = complete_job now job_id r m
perform (fail e) now job_id m = fail_job now job_id e m
perform (update s r e) now job_id m = update_job_status now job_id s r e m

-- A call that is refused changes nothing: no job, no time of the last cleanup, no published event.
pub refused_unchanged :
    (c : Call) (now : ℕ) (job_id : String) (m : JobManager)
    → (perform c now job_id m).0 ≡ false
    → (perform c now job_id m).1 ≡ m
unfolding start_job cancel_job complete_job fail_job update_job_status
refused_unchanged start now job_id m h = ground arith
refused_unchanged cancel now job_id m h = ground arith
refused_unchanged (complete r) now job_id m h = ground arith
refused_unchanged (fail e) now job_id m h = ground arith
refused_unchanged (update s r e) now job_id m h = ground arith

-- No call touches a job other than the one that it names.
pub others_unchanged :
    (c : Call) (now : ℕ) (job_id k : String) (m : JobManager)
    → job_id ≢ k
    → get_job k (perform c now job_id m).1 ≡ get_job k m
unfolding start_job cancel_job complete_job fail_job update_job_status get_job put_job
others_unchanged start now job_id k m h = grind (arith, lookup-insert, eq_iff job_id k)
others_unchanged cancel now job_id k m h = grind (arith, lookup-insert, eq_iff job_id k)
others_unchanged (complete r) now job_id k m h = grind (arith, lookup-insert, eq_iff job_id k)
others_unchanged (fail e) now job_id k m h = grind (arith, lookup-insert, eq_iff job_id k)
others_unchanged (update s r e) now job_id k m h = grind (arith, lookup-insert, eq_iff job_id k)
