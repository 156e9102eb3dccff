-- ===== src/Api/Repository/InMemory.antt =====
-- `_InMemoryJobRepository` of services/api_service/src/presentation/app.py. It hands out the stored
-- object itself, so an assignment to a job that it found is seen in the store at once.
pub mod Searches
use ai_microservices.Base.{
  ℕ, none, some, List, String, Option, string_eq, Bool, arith, if◌then◌else◌, nat_eq, pair_eq,
  eq_iff, inl, inr, Option-cases, ==_refl,
}
use ai_microservices.Base.Dict.{Dict, lookup, insert, erase, has_key, lookup-insert, lookup-erase}
use ai_microservices.Api.Result.{Result, ok}
use ai_microservices.Api.Job.{Job}
use ai_microservices.Api.Repository.{
  Query, SortField, SortOrder, JobRepository, IsLawful, TouchesOne, IsShared,
}
use ai_microservices.Api.Repository.Listing.{find_all}

abbrev pub Jobs : Type 0
Jobs = Dict String Job

unfoldable pub save : Job → Jobs → Result Job × Jobs
save job jobs = (ok job, insert job.id job jobs)

unfoldable pub find_by_id : String → Jobs → Result (Option Job)
find_by_id job_id jobs = ok (lookup job_id jobs)

-- `self._jobs.pop(job_id, None) is not None`
unfoldable pub delete : String → Jobs → Result Bool × Jobs
delete job_id jobs = (ok (has_key job_id jobs), erase job_id jobs)

unfoldable pub touch : Job → Jobs → Jobs
touch job jobs = if has_key job.id jobs then insert job.id job jobs else jobs

-- `find_all` with its defaults for what a caller leaves out
abbrev query_with : Option String → Option String → ℕ → ℕ → Query
query_with user_id status limit offset = record {
  user_id = user_id;
  status = status;
  job_type = none;
  limit = limit;
  offset = offset;
  sort_by = SortField.created_at;
  sort_order = SortOrder.desc;
}

unfoldable pub find_by_status : String → ℕ → ℕ → Jobs → List Job × ℕ
find_by_status status limit offset jobs = find_all (query_with none (some status) limit offset) jobs

unfoldable pub find_by_user : String → ℕ → ℕ → Jobs → List Job × ℕ
find_by_user user_id limit offset jobs = find_all (query_with (some user_id) none limit offset) jobs

-- It asks neither the table of transitions nor the rules of a job. The found object is assigned to
-- where it is stored, and then saved.
unfoldable pub update_status : String → String → Jobs → Option Job × Jobs
update_status job_id status jobs = elim (lookup job_id jobs) [
  | none ↦ (none, jobs)
  | some job ↦ (
    some (record job { status = status }),
    insert job.id (record job { status = status })
        (insert job_id (record job { status = status }) jobs),
  )
]

abbrev pub exists : String → Jobs → Bool
exists job_id jobs = has_key job_id jobs

unfoldable pub count : Option String → Option String → Jobs → ℕ
count user_id status jobs = (find_all (query_with user_id status 50 0) jobs).1

abbrev pub in_memory : JobRepository
in_memory = record {
  State = Jobs;
  save = save;
  find_by_id = find_by_id;
  find_all = λ q jobs. ok (find_all q jobs);
  find_by_status = λ status limit offset jobs. ok (find_by_status status limit offset jobs);
  find_by_user = λ user_id limit offset jobs. ok (find_by_user user_id limit offset jobs);
  update_status = λ job_id status jobs.
      let (found, jobs') = update_status job_id status jobs in (ok found, jobs');
  delete = delete;
  exists = λ job_id jobs. ok (exists job_id jobs);
  count = λ user_id status jobs. ok (count user_id status jobs);
  touch = touch;
}

pub in_memory-IsLawful : IsLawful in_memory
unfolding save find_by_id delete
in_memory-IsLawful = record {
  save_returns = λ j k s e. cc;
  find-save = λ j k i s e. ground (arith, lookup-insert j.id i j s);
  save_error = λ j e s h. cc;
  find_error = λ i e s h. cc;
  delete_returns = λ i b o s p q. ground arith;
  find-delete = λ i k b s e. ground (arith, lookup-erase i k s);
  delete_error = λ i e s h. cc;
}

pub in_memory-TouchesOne : TouchesOne in_memory
unfolding touch find_by_id
in_memory-TouchesOne j i s h = ground (arith, lookup-insert j.id i j s, eq_iff j.id i)

pub in_memory-IsShared : IsShared in_memory
unfolding touch find_by_id
in_memory-IsShared j k s h = elim (Option-cases (lookup j.id s)) [
  | inl e ↦ cc (simp e at h)
  | inr (o, e) ↦ simp (e, lookup-insert j.id j.id j s, ==_refl j.id)
]
