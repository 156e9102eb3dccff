-- ===== src/Api/Http/Jobs/Created.antt =====
-- A request that its schema accepts creates a job.
use ai_microservices.Base.{ℕ, String, ◌≡◌, true, ◌&&◌, none, some, Bool-cases, inl, inr, arith, ◌∙◌}
use ai_microservices.Base.Int.{pos, leb_ℤ}
use ai_microservices.Base.Text.{truthy, strip}
use ai_microservices.Base.Text.Strip.{truthy-strip-strip}
use ai_microservices.Api.Result.{ok}
use ai_microservices.Api.Job.{Job, create}
use ai_microservices.Api.Job.Lifecycle.{is_valid_of_IsWellFormed}
use mathlib.Core.Path.{subst}
use mathlib.Core.Option.{some-injective}
use ai_microservices.Api.Job.Lifecycle.{ensured}
use ai_microservices.Api.Job.Reached.{create-IsWellFormed}
use ai_microservices.Api.Status.{priority_accepted}
use ai_microservices.Api.UseCases.{Service, World, JobDto}
use ai_microservices.Api.UseCases.Create.{created_dto}
use ai_microservices.Api.UseCases.Create.Outcome.{requested, execute_succeeds}
use ai_microservices.Api.Http.{Caller, caller_id, respond, one}
use ai_microservices.Api.Http.Schemas.{
  CreateJobRequest, fits_create, validate_create, accepts_create,
}
use ai_microservices.Api.Http.Jobs.{create_job, input_of}
use ai_microservices.Api.Http.Jobs.Access.{truthy-caller_id}

-- what a request that its schema accepts satisfies
pub record IsValidated (r : CreateJobRequest) : Type 0 where
  pub typed : truthy r.job_type ≡ true
  pub typed_stripped : truthy (strip r.job_type) ≡ true
  pub priority_low : leb_ℤ (pos 1) r.priority ≡ true
  pub priority_high : leb_ℤ r.priority (pos 10) ≡ true
  pub timeout_low : leb_ℤ (pos 1) r.timeout_seconds ≡ true

validate_create-IsValidated :
    (raw r : CreateJobRequest) → validate_create raw ≡ some r → IsValidated r
unfolding validate_create
validate_create-IsValidated raw r h = elim (Bool-cases (fits_create raw)) [
  | inr e ↦ cc (simp e at h)
  | inl e ↦
      let q : record raw { job_type = strip raw.job_type } ≡ r = some-injective _ _ (simp e at h) in
      subst IsValidated q (record {
        typed = ground arith;
        typed_stripped = truthy-strip-strip raw.job_type ∙ ground arith;
        priority_low = ground arith;
        priority_high = ground arith;
        timeout_low = ground arith;
      })
]

-- the job that a validated request asks for
abbrev pub job_of : String → ℕ → Caller → CreateJobRequest → Job
job_of fresh_id now c r = record {
  id = fresh_id;
  user_id = some (caller_id c);
  job_type = strip r.job_type;
  status = "pending";
  priority = r.priority;
  input_data = r.input_data;
  result = none;
  error = none;
  created_at = now;
  started_at = none;
  completed_at = none;
  timeout_seconds = some r.timeout_seconds;
}

requested_job :
    (fresh_id : String) (now : ℕ) (c : Caller) (r : CreateJobRequest)
    → IsValidated r
    → requested fresh_id now (input_of c r) ≡ ok (job_of fresh_id now c r)
unfolding create priority_accepted
requested_job fresh_id now c r v =
    let t : (truthy r.job_type && truthy (strip r.job_type)) ≡ true =
      ground (arith, v.typed, v.typed_stripped) in
    let f : priority_accepted r.priority ≡ true = ground (arith, v.priority_low, v.priority_high) in
    simp (t, f)

-- A request that its schema accepts is answered with 201 and the new job, which is pending and
-- belongs to the caller, where every save succeeds and every DTO is accepted: no check behind the
-- schema refuses it.
pub valid_request_201 :
    (S : Service) (c : Caller) (fresh_id : String) (now : ℕ) (raw r : CreateJobRequest)
    (w : World S)
    → ((j : Job) (s : S.repository.State) → (S.repository.save j s).0 ≡ ok j)
    → ((d : JobDto) → S.accepts d ≡ true)
    → truthy fresh_id ≡ true
    → validate_create raw ≡ some r
    → (create_job S c fresh_id now r w).0
      ≡ respond 201 (one (created_dto S (job_of fresh_id now c r)))
unfolding create_job accepts_create
valid_request_201 S c fresh_id now raw r w saves accepts named valid =
    let v = validate_create-IsValidated raw r valid in
    let p = requested_job fresh_id now c r v in
    let a : accepts_create (input_of c r) ≡ true =
      ground (arith, v.typed, v.priority_low, v.priority_high, v.timeout_low, truthy-caller_id c) in
    let (k, _, _) = ensured _ (requested fresh_id now (input_of c r)) p (
      create-IsWellFormed fresh_id now r.job_type r.input_data (some (caller_id c)) r.priority
        (some r.timeout_seconds) named) in
    let good = is_valid_of_IsWellFormed (job_of fresh_id now c r) k in
    simp (
      a,
      execute_succeeds S fresh_id now (input_of c r) w (job_of fresh_id now c r) saves accepts p
          good,
    )
