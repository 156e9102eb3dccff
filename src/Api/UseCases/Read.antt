-- ===== src/Api/UseCases/Read.antt =====
-- get_job.py and list_jobs.py: the use cases that change nothing.
use ai_microservices.Base.{
  ℕ, String, not, ◌||◌, Option, none, some, List, [], ◌∷◌, if◌then◌else◌, ◌==◌, nat_eq, string_eq,
  pair_eq,
}
use ai_microservices.Base.Int.{ℤ, pos, ltb_ℤ, pos_part}
use ai_microservices.Base.Text.{truthy}
use ai_microservices.Api.Result.{Result, ok, err, value_error, job_not_found}
use ai_microservices.Api.Effects.{Exec, lift, guard, or_raise, ◌>>=◌, ◌>>◌}
use ai_microservices.Api.Job.{Job}
use ai_microservices.Api.Repository.{
  SortField, SortOrder, created_at, status, priority, asc, desc, Query,
}
use ai_microservices.Api.UseCases.{Service, World, JobDto, find, map_to_dto}

abbrev pub sort_field : String → Option SortField
sort_field s =
    if s == "created_at"
    then some created_at
    else if s == "status"
    then some status
    else if s == "priority"
    then some priority
    else none

abbrev pub sort_direction : String → Option SortOrder
sort_direction s = if s == "asc" then some asc else if s == "desc" then some desc else none

-- the arguments of `ListJobsUseCase.execute`
pub record ListArgs : Type 0 where
  pub user_id : Option String
  pub status : Option String
  pub job_type : Option String
  pub limit : ℤ
  pub offset : ℤ
  pub sort_by : String
  pub sort_order : String

-- the call of `find_all`
abbrev pub query_of : ListArgs → SortField → SortOrder → Query
query_of a field direction = record {
  user_id = a.user_id;
  status = a.status;
  job_type = a.job_type;
  limit = pos_part a.limit;
  offset = pos_part a.offset;
  sort_by = field;
  sort_order = direction;
}

module _ (S : Service) where
  open S use {repository.{find_all}}

  -- `GetJobUseCase.execute`
  unfoldable pub get_job : String → Exec (World S) JobDto
  unfolding find
  get_job job_id = do
    guard (truthy job_id) value_error
    found ← find S job_id
    job ← or_raise found (job_not_found job_id)
    lift (map_to_dto S job)

  unfoldable pub all_dtos : List Job → Result (List JobDto)
  all_dtos [] = ok []
  all_dtos (job ∷ jobs) = elim (map_to_dto S job) [
    | err e ↦ err e
    | ok d ↦ elim (all_dtos jobs) [ err e ↦ err e | ok ds ↦ ok (d ∷ ds) ]
  ]

  -- `ListJobsUseCase.execute`
  unfoldable pub list_jobs : ListArgs → Exec (World S) (List JobDto × ℕ)
  list_jobs a = do
    guard (not (ltb_ℤ a.limit (pos 1) || ltb_ℤ (pos 100) a.limit)) value_error
    guard (not (ltb_ℤ a.offset (pos 0))) value_error
    field ← or_raise (sort_field a.sort_by) value_error
    direction ← or_raise (sort_direction a.sort_order) value_error
    (jobs, total) ← λ w. (find_all (query_of a field direction) w.store, w)
    dtos ← lift (all_dtos jobs)
    lift (ok (dtos, total))
