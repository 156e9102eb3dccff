-- ===== src/Worker/JobManager.antt =====
-- services/ai_worker/src/infrastructure/jobs/job_manager.py. A time is a number of microseconds,
-- read from the clock by each method that asks for it, and a status is a text. `JobStatus` is a
-- `str` enumeration, so its members equal their values.
pub mod Calls
pub mod Steps
pub mod Cleanup
pub mod Statistics
use ai_microservices.Base.{
  ℕ, ◌-◌, ◌*◌, String, Bool, true, false, not, ◌&&◌, Option, none, some, List, [], ◌∷◌, ◌++◌, ltb,
  if◌then◌else◌, is_some, length, take, filter, ◌==◌, nat_eq, string_eq, pair_eq, contains, ◌+◌,
}
use ai_microservices.Base.Dict.{Dict, lookup, insert, erase, values}
use ai_microservices.Base.Sort.{sort}
use ai_microservices.Base.Text.{truthy}
use ai_microservices.Base.Value.{Fields}

abbrev pub pending : String
pending = "pending"

abbrev pub running : String
running = "running"

abbrev pub completed : String
completed = "completed"

abbrev pub failed : String
failed = "failed"

abbrev pub cancelled : String
cancelled = "cancelled"

pub record Job : Type 0 where
  pub id : String
  pub status : String
  pub payload : Fields
  pub result : Option Fields
  pub error : Option String
  pub created_at : ℕ
  pub started_at : Option ℕ
  pub completed_at : Option ℕ
  pub model_id : Option String
  pub model_version : Option String

-- the calls of the event publisher
pub data Published : Type 0 where
  job_completed : String → Fields → Published
  job_failed : String → String → Published

pub record JobManager : Type 0 where
  pub jobs : Dict String Job
  pub retention_days : ℕ
  pub cleanup_interval_hours : ℕ
  pub last_cleanup : ℕ
  pub published : List Published

-- microseconds in an hour and in a day
abbrev pub hour : ℕ
hour = 3600000000

abbrev pub day : ℕ
day = 86400000000

abbrev pub terminal : List String
terminal = completed ∷ failed ∷ cancelled ∷ []

unfoldable pub get_job : String → JobManager → Option Job
get_job job_id m = lookup job_id m.jobs

-- assignments to the fields of the stored job
unfoldable pub put_job : String → Job → JobManager → JobManager
put_job job_id job m = record m { jobs = insert job_id job m.jobs }

-- `job.completed_at and job.completed_at < now - timedelta(days=retention_days)`
abbrev pub past_retention : ℕ → ℕ → Option ℕ → Bool
past_retention now retention_days none = false
past_retention now retention_days (some t) = ltb (t + retention_days * day) now

unfoldable pub is_stale : ℕ → ℕ → Job → Bool
is_stale now retention_days job =
    contains terminal job.status && past_retention now retention_days job.completed_at

unfoldable pub stale_ids : ℕ → ℕ → Dict String Job → List String
stale_ids now retention_days [] = []
stale_ids now retention_days ((job_id, job) ∷ jobs) =
    let rest = stale_ids now retention_days jobs in
    if is_stale now retention_days job then job_id ∷ rest else rest

-- `for job_id in jobs_to_delete: del self.jobs[job_id]`
unfoldable pub delete_all : List String → Dict String Job → Dict String Job
delete_all [] jobs = jobs
delete_all (job_id ∷ ids) jobs = delete_all ids (erase job_id jobs)

unfoldable pub cleanup_old_jobs : ℕ → ℕ → JobManager → ℕ × JobManager
cleanup_old_jobs now retention_days m =
    let ids = stale_ids now retention_days m.jobs in
    (length ids, record m { jobs = delete_all ids m.jobs })

-- `_cleanup_if_needed`; the clock is read again in `cleanup_old_jobs`
unfoldable pub cleanup_if_needed : ℕ → ℕ → JobManager → JobManager
cleanup_if_needed now now' m =
    if ltb now (m.last_cleanup + m.cleanup_interval_hours * hour)
    then m
    else record (cleanup_old_jobs now' m.retention_days m).1 { last_cleanup = now }

-- `fresh_id` is what `str(uuid4())` returns; the clock is read three times
unfoldable pub create_job :
    String → ℕ → ℕ → ℕ → Fields → Option String → Option String → JobManager → String × JobManager
create_job fresh_id now now' now'' payload model_id model_version m =
    let job : Job = record {
      id = fresh_id;
      status = pending;
      payload = payload;
      result = none;
      error = none;
      created_at = now;
      started_at = none;
      completed_at = none;
      model_id = model_id;
      model_version = model_version;
    } in
    (fresh_id, cleanup_if_needed now' now'' (put_job fresh_id job m))

-- `sort(key=created_at, reverse=True)`
abbrev pub newer : Job → Job → Bool
newer a b = ltb b.created_at a.created_at

-- `if status: jobs = [j for j in jobs if j.status == status]`
abbrev pub with_status : Option String → List Job → List Job
with_status none jobs = jobs
with_status (some s) jobs = if truthy s then filter (λ j. j.status == s) jobs else jobs

unfoldable pub list_jobs : Option String → ℕ → JobManager → List Job
unfolding sort
list_jobs status limit m = take limit (sort newer (with_status status (values m.jobs)))

unfoldable pub start_job : ℕ → String → JobManager → Bool × JobManager
start_job now job_id m = elim (get_job job_id m) [
  | none ↦ (false, m)
  | some job ↦
      if not (job.status == pending)
      then (false, m)
      else (true, put_job job_id (record job { status = running; started_at = some now }) m)
]

unfoldable pub complete_job : ℕ → String → Fields → JobManager → Bool × JobManager
complete_job now job_id result m = elim (get_job job_id m) [
  | none ↦ (false, m)
  | some job ↦ if not (contains (running ∷ pending ∷ []) job.status) then (false, m) else (
    true,
    record (put_job job_id
        (record job { status = completed; result = some result; completed_at = some now }) m) {
          published = m.published ++ Published.job_completed job_id result ∷ [];
        },
  )
]

unfoldable pub fail_job : ℕ → String → String → JobManager → Bool × JobManager
fail_job now job_id error m = elim (get_job job_id m) [
  | none ↦ (false, m)
  | some job ↦ if contains terminal job.status then (false, m) else (
    true,
    record (put_job job_id
        (record job { status = failed; error = some error; completed_at = some now }) m) {
          published = m.published ++ Published.job_failed job_id error ∷ [];
        },
  )
]

unfoldable pub cancel_job : ℕ → String → JobManager → Bool × JobManager
cancel_job now job_id m = elim (get_job job_id m) [
  | none ↦ (false, m)
  | some job ↦
      if contains terminal job.status
      then (false, m)
      else (true, put_job job_id (record job { status = cancelled; completed_at = some now }) m)
]

abbrev pub valid_next_states : Dict String (List String)
valid_next_states =
    (pending, running ∷ cancelled ∷ [])
    ∷ (running, completed ∷ failed ∷ cancelled ∷ [])
    ∷ (completed, [])
    ∷ (failed, [])
    ∷ (cancelled, [])
    ∷ []

-- `valid_next_states.get(job.status, [])`
abbrev pub next_states : String → List String
next_states status = elim (lookup status valid_next_states) [ none ↦ [] | some l ↦ l ]

-- `if x is not None: job.field = x`
abbrev pub given_or {ℓ} : {A : Type ℓ} → Option A → Option A → Option A
given_or none old = old
given_or (some new) old = some new

-- the assignments of `update_job_status`
unfoldable pub updated_job : ℕ → String → Option Fields → Option String → Job → Job
updated_job now status result error job = record job {
  status = status;
  started_at =
      if status == running && not (is_some job.started_at) then some now else job.started_at;
  completed_at = if contains terminal status then some now else job.completed_at;
  result = given_or result job.result;
  error = given_or error job.error;
}

unfoldable pub update_job_status :
    ℕ → String → String → Option Fields → Option String → JobManager → Bool × JobManager
update_job_status now job_id status result error m = elim (get_job job_id m) [
  | none ↦ (false, m)
  | some job ↦
      if not (contains (next_states job.status) status)
      then (false, m)
      else (true, put_job job_id (updated_job now status result error job) m)
]
