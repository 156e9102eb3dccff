-- ===== src/Api/Examples/Requests.antt =====
-- Requests of the job routes on a store in memory.
use mathlib.Core.Path.{subst}
use ai_microservices.Base.Dict.{Dict}
use ai_microservices.Api.Job.{Job}
use ai_microservices.Base.{All, ap}
use ai_microservices.Api.Repository.{IsWanted}
use ai_microservices.Base.{String, ◌≡◌, refl, false, none, some, [], ◌∷◌}
use ai_microservices.Base.Text.{strip}
use ai_microservices.Base.Int.{pos}
use ai_microservices.Base.Value.{end}
use ai_microservices.Api.Result.{ok}
use ai_microservices.Api.UseCases.Read.{ListArgs}
use ai_microservices.Api.Repository.InMemory.{in_memory, save, find_by_id}
use ai_microservices.Api.Repository.Listing.{find_all}
use ai_microservices.Api.Repository.Listing.Paging.{find_all_page}
use ai_microservices.Api.Http.{Caller, caller_id, is_admin, forbidden}
use ai_microservices.Api.Http.Jobs.{
  may_access, get_job, poll_job_status, update_job, delete_job, cancel_job, list_jobs,
}
use ai_microservices.Api.Http.Jobs.Access.{foreign_job_forbidden}
use ai_microservices.Api.Http.Jobs.Scope.{IsFiltering, ShowsOnly, list_jobs_own}
use ai_microservices.Api.Http.Schemas.{CreateJobRequest, validate_create}
use ai_microservices.Api.Examples.{pending_job}
use ai_microservices.Api.Examples.Calls.{service, one_pending}

-- somebody else than the owner of the job
abbrev other_user : Caller
other_user = record { user_id = some "u2"; roles = "user" ∷ [] }

found : find_by_id "j1" one_pending.store ≡ ok (some pending_job)
unfolding find_by_id
found = refl

foreign : may_access other_user (some "u1") ≡ false
unfolding may_access is_admin caller_id
foreign = refl

missing : find_by_id "j9" one_pending.store ≡ ok none
unfolding find_by_id
missing = refl

foreign_job_forbidden_example :
    (get_job service other_user "j1" one_pending ≡ (forbidden, one_pending))
    × (poll_job_status service other_user "j1" one_pending ≡ (forbidden, one_pending))
    × (update_job service other_user "j1" (some (pos 9)) one_pending ≡ (forbidden, one_pending))
    × (delete_job service other_user "j1" one_pending ≡ (forbidden, one_pending))
    × (cancel_job service other_user 9 "j1" one_pending ≡ (forbidden, one_pending))
foreign_job_forbidden_example =
    foreign_job_forbidden service other_user 9 "j1" (some (pos 9)) one_pending refl pending_job
      found refl foreign

in_memory-IsFiltering : IsFiltering in_memory
in_memory-IsFiltering q s jobs total h =
    let e : find_all q s ≡ (jobs, total) = cc in
    subst (All (IsWanted q)) (ap (λ p. p.0) e) (find_all_page q s).0

abbrev first_page : ListArgs
first_page = record {
  user_id = none;
  status = none;
  job_type = none;
  limit = pos 10;
  offset = pos 0;
  sort_by = "created_at";
  sort_order = "asc";
}

plain : is_admin other_user ≡ false
unfolding is_admin
plain = refl

list_jobs_own_example :
    ShowsOnly (caller_id other_user) (list_jobs service other_user first_page one_pending).0
list_jobs_own_example =
    list_jobs_own service other_user first_page one_pending in_memory-IsFiltering plain

abbrev request : CreateJobRequest
request = record {
  job_type = " train ";
  input_data = end;
  priority = pos 5;
  timeout_seconds = pos 60;
}

valid : validate_create request ≡ some (record request { job_type = "train" })
unfolding validate_create strip
valid = refl

saves : (j : Job) (s : Dict String Job) → (save j s).0 ≡ ok j
unfolding save
saves j s = refl
