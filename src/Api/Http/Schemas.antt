-- ===== src/Api/Http/Schemas.antt =====
-- services/api_service/src/presentation/routes/v1/jobs/schemas.py and the constraints of CreateJobDTO
-- in application/dto/job_dto.py. A request that breaks a constraint is rejected before the handler
-- runs: the model of a schema returns none there. Texts are stripped first, as the configuration says.
use ai_microservices.Base.{
  ℕ, String, Bool, true, ◌&&◌, Option, none, some, [], ◌∷◌, leb, if◌then◌else◌, string_eq, contains,
  suc, nat_eq, pair_eq,
}
use ai_microservices.Base.Int.{ℤ, pos, leb_ℤ}
use ai_microservices.Base.Text.{truthy, strip}
use ai_microservices.Base.Value.{Fields}
use ai_microservices.Api.Status.{is_valid}
use ai_microservices.Api.UseCases.Create.{CreateJobDto}
use ai_microservices.Api.UseCases.Read.{ListArgs}

-- `len(s)`
abbrev pub text_length : String → ℕ
text_length String.[] = 0
text_length (String.◌∷◌ c s) = suc (text_length s)

abbrev pub between : ℤ → ℤ → ℤ → Bool
between low high n = leb_ℤ low n && leb_ℤ n high

-- a body of POST /api/v1/jobs with its types as declared
pub record CreateJobRequest : Type 0 where
  pub job_type : String
  pub input_data : Fields
  pub priority : ℤ
  pub timeout_seconds : ℤ

abbrev pub fits_create : CreateJobRequest → Bool
fits_create r =
    truthy (strip r.job_type)
    && leb (text_length (strip r.job_type)) 100
    && between (pos 1) (pos 10) r.priority
    && between (pos 1) (pos 86400) r.timeout_seconds

unfoldable pub validate_create : CreateJobRequest → Option CreateJobRequest
validate_create r = if fits_create r then some (record r { job_type = strip r.job_type }) else none

-- UpdateJobRequest: the priority is given, in its range
unfoldable pub validate_update : Option ℤ → Option ℤ
validate_update none = none
validate_update (some p) = if between (pos 1) (pos 10) p then some p else none

-- JobPathParams
unfoldable pub validate_path : String → Option String
validate_path job_id =
    if truthy (strip job_id) && leb (text_length (strip job_id)) 128
    then some (strip job_id)
    else none

abbrev text_within : ℕ → Option String → Bool
text_within n none = true
text_within n (some s) = truthy (strip s) && leb (text_length (strip s)) n

abbrev strip_option : Option String → Option String
strip_option none = none
strip_option (some s) = some (strip s)

abbrev known_status : Option String → Bool
known_status none = true
known_status (some s) = is_valid (strip s)

-- ListJobsQuery
unfoldable pub validate_list : ListArgs → Option ListArgs
validate_list a =
    if text_within 128 a.user_id
      && known_status a.status
      && text_within 100 a.job_type
      && between (pos 1) (pos 100) a.limit
      && leb_ℤ (pos 0) a.offset
      && contains ("created_at" ∷ "status" ∷ "priority" ∷ []) (strip a.sort_by)
      && contains ("asc" ∷ "desc" ∷ []) (strip a.sort_order)
    then some (record a {
      user_id = strip_option a.user_id;
      status = strip_option a.status;
      job_type = strip_option a.job_type;
      sort_by = strip a.sort_by;
      sort_order = strip a.sort_order;
    })
    else none

-- the constraints of CreateJobDTO
unfoldable pub accepts_create : CreateJobDto → Bool
accepts_create d =
    truthy d.job_type
    && leb_ℤ (pos 1) d.priority
    && leb_ℤ d.priority (pos 10)
    && leb_ℤ (pos 1) d.timeout_seconds
    && truthy d.user_id
