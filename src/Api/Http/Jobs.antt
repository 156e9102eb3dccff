-- ===== src/Api/Http/Jobs.antt =====
-- services/api_service/src/presentation/routes/v1/jobs/controller.py: the handlers, with the request
-- validated. Each handler is the use case that it calls and the answer that it makes of the outcome.
pub mod Access
pub mod Scope
pub mod Created
use ai_microservices.Base.{
  ℕ, String, Bool, true, false, not, ◌&&◌, Option, none, some, List, if◌then◌else◌, ◌==◌, string_eq,
  nat_eq, pair_eq,
}
use ai_microservices.Base.Int.{ℤ}
use ai_microservices.Base.Text.{truthy}
use ai_microservices.Api.Result.{
  Error, Result, ok, err, value_error, job_not_found, permission_error, invalid_job_status,
  repository_error,
}
use ai_microservices.Api.UseCases.{Service, World, JobDto}
use ai_microservices.Api.UseCases.Create as Create
use ai_microservices.Api.UseCases.Create.{CreateJobDto}
use ai_microservices.Api.UseCases.Read as Read
use ai_microservices.Api.UseCases.Read.{ListArgs}
use ai_microservices.Api.UseCases.Cancel as Cancel
use ai_microservices.Api.UseCases.Update as Update
use ai_microservices.Api.UseCases.Update.{Changes}
use ai_microservices.Api.UseCases.Delete as Delete
use ai_microservices.Api.Http.{
  Caller, caller_id, is_admin, Body, Response, respond, forbidden, one, page, progress, deleted,
  failed,
}
use ai_microservices.Api.Http.Schemas.{CreateJobRequest, accepts_create}

-- `_assert_owner_or_admin`: `None` is nobody's identifier
unfoldable pub may_access : Caller → Option String → Bool
may_access c job_user_id =
    if is_admin c then true else elim job_user_id [ none ↦ false | some u ↦ caller_id c == u ]

abbrev pub input_of : Caller → CreateJobRequest → CreateJobDto
input_of c r = record {
  job_type = r.job_type;
  input_data = r.input_data;
  priority = r.priority;
  timeout_seconds = r.timeout_seconds;
  user_id = caller_id c;
}

-- the `except` clauses of creation and listing: whatever is no ValueError is a 500
abbrev pub failure : Error → Response
failure value_error = respond 400 failed
failure _ = respond 500 failed

-- those of get and of the status poll
abbrev pub get_failure : Error → Response
get_failure (job_not_found i) = respond 404 failed
get_failure e = failure e

abbrev pub update_failure : Error → Response
update_failure invalid_job_status = respond 400 failed
update_failure e = get_failure e

abbrev pub delete_failure : Error → Response
delete_failure permission_error = forbidden
delete_failure e = failure e

abbrev pub cancel_failure : Error → Response
cancel_failure permission_error = forbidden
cancel_failure e = update_failure e

abbrev pub priority_change : Option ℤ → Changes
priority_change p = record { priority = p; status = none; result = none; error = none }

abbrev pub answer : {A : Type 0} → (A → Response) → (Error → Response) → Result A → Response
answer f g (ok a) = f a
answer f g (err e) = g e

-- the answer of a handler that shows a job to those who may access it
abbrev pub shown : Caller → (JobDto → Body) → JobDto → Response
shown c show d = if may_access c d.user_id then respond 200 (show d) else forbidden

abbrev pub progress_of : JobDto → Body
progress_of d = progress d.id d.status d.result d.error

-- `if query.user_id and query.user_id != caller_id` for a caller who is no admin
abbrev pub is_foreign : Caller → Option String → Bool
is_foreign c none = false
is_foreign c (some u) = truthy u && not (u == caller_id c)

module _ (S : Service) where
  abbrev pub Handler : Type 0
  Handler = World S → Response × World S

  unfoldable pub create_job : Caller → String → ℕ → CreateJobRequest → Handler
  create_job c fresh_id now r w =
      if accepts_create (input_of c r)
      then (let (x, w') = Create.execute S fresh_id now (input_of c r) w in
          (answer (λ d. respond 201 (one d)) failure x, w'))
      else (respond 400 failed, w)

  abbrev pub list_with : ListArgs → Handler
  list_with a w =
      let (x, w') = Read.list_jobs S a w in
      (answer (λ p. respond 200 (page p.0 p.1 a.limit a.offset)) failure x, w')

  unfoldable pub list_jobs : Caller → ListArgs → Handler
  list_jobs c a w =
      if is_admin c
      then list_with a w
      else if is_foreign c a.user_id
      then (forbidden, w)
      else list_with (record a { user_id = some (caller_id c) }) w

  unfoldable pub get_job : Caller → String → Handler
  get_job c job_id w =
      let (x, w') = Read.get_job S job_id w in (answer (shown c one) get_failure x, w')

  unfoldable pub poll_job_status : Caller → String → Handler
  poll_job_status c job_id w =
      let (x, w') = Read.get_job S job_id w in (answer (shown c progress_of) get_failure x, w')

  abbrev update_found : Caller → String → Option ℤ → JobDto → Handler
  update_found c job_id p existing w =
      if may_access c existing.user_id
      then (let (x, w') = Update.update_job S job_id (priority_change p) w in
          (answer (λ d. respond 200 (one d)) update_failure x, w'))
      else (forbidden, w)

  abbrev update_after : Caller → String → Option ℤ → Result JobDto → Handler
  update_after c job_id p (err e) w = (update_failure e, w)
  update_after c job_id p (ok d) w = update_found c job_id p d w

  -- fetched first, for the check of the owner
  unfoldable pub update_job : Caller → String → Option ℤ → Handler
  update_job c job_id p w = let (x, w') = Read.get_job S job_id w in update_after c job_id p x w'

  unfoldable pub delete_job : Caller → String → Handler
  delete_job c job_id w =
      let (x, w') = Delete.delete_job S job_id (caller_id c) (is_admin c) w in
      (answer (λ d. if d then respond 200 deleted else respond 404 failed) delete_failure x, w')

  unfoldable pub cancel_job : Caller → ℕ → String → Handler
  cancel_job c now job_id w =
      let (x, w') = Cancel.cancel_job S now job_id (caller_id c) (is_admin c) w in
      (answer (λ d. respond 200 (one d)) cancel_failure x, w')
