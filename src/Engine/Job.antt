-- ===== src/Engine/Job.antt =====
-- ai_engine/domain/models.py. The members of AIJobStatus are the five statuses of the diagram, with
-- the same texts. An exception is a ValueError or another one, with its text.
pub mod Serial
use Prim.Native.String.{String, ◌++◌}
use ai_microservices.Base.{ℕ, Bool, true, false, Option, none, some, if◌then◌else◌, ◌==◌, string_eq}
use ai_microservices.Base.Value.{Value, Fields, end}
use ai_microservices.Api.Status.Diagram.{Status, name}

pub data Exception : Type 0 where
  value_error : String → Exception
  other : String → Exception

pub data Attempt {ℓ} (A : Type ℓ) : Type ℓ where
  raised : Exception → Attempt A
  done : A → Attempt A

pub data JobType : Type 0 where
  summarization sentiment_analysis dataset_profiling : JobType

abbrev pub type_value : JobType → String
type_value JobType.summarization = "summarization"
type_value JobType.sentiment_analysis = "sentiment_analysis"
type_value JobType.dataset_profiling = "dataset_profiling"

-- AIJobResult; its `data` is called `output` here
pub record JobResult : Type 0 where
  pub success : Bool
  pub output : Fields
  pub error : Option String
  pub metadata : Fields

-- `AIJobResult.failure(error)`
abbrev pub failure : String → JobResult
failure error = record { success = false; output = end; error = some error; metadata = end }

pub record AiJob : Type 0 where
  pub job_type : JobType
  pub payload : Fields
  pub job_id : String
  pub status : Status
  pub result : Option JobResult
  pub created_at : ℕ
  pub updated_at : ℕ
  pub tags : Fields

-- `AIJob(job_type=…, payload=…, tags=…)`: `fresh_id` is what `str(uuid4())` returns
abbrev pub new_job : String → ℕ → ℕ → JobType → Fields → Fields → AiJob
new_job fresh_id now now' job_type payload tags = record {
  job_type = job_type;
  payload = payload;
  job_id = fresh_id;
  status = Status.pending;
  result = none;
  created_at = now;
  updated_at = now';
  tags = tags;
}

abbrev pub expected_status : Status → Status → Exception
expected_status expected got =
    value_error ("Expected status '" ++ name expected ++ "', got '" ++ name got ++ "'.")

unfoldable pub mark_running : ℕ → AiJob → Attempt AiJob
mark_running now job = elim job.status [
  | Status.pending ↦ done (record job { status = Status.running; updated_at = now })
  | other_status ↦ raised (expected_status Status.pending other_status)
]

unfoldable pub mark_completed : ℕ → JobResult → AiJob → Attempt AiJob
mark_completed now result job = elim job.status [
  | Status.running ↦
      done (record job { status = Status.completed; result = some result; updated_at = now })
  | other_status ↦ raised (expected_status Status.running other_status)
]

unfoldable pub mark_failed : ℕ → String → AiJob → Attempt AiJob
mark_failed now error job = elim job.status [
  | Status.running ↦
      done (record job { status = Status.failed; result = some (failure error); updated_at = now })
  | other_status ↦ raised (expected_status Status.running other_status)
]

-- `status` prints as the member, not as its value
abbrev cannot_cancel : String → Exception
cannot_cancel shown = value_error ("Cannot cancel job in status '" ++ shown ++ "'.")

-- `shown` is how the interpreter formats a member of a `str` enumeration
unfoldable pub cancel : (Status → String) → ℕ → AiJob → Attempt AiJob
cancel shown now job = elim job.status [
  | Status.pending ↦ done (record job { status = Status.cancelled; updated_at = now })
  | Status.running ↦ done (record job { status = Status.cancelled; updated_at = now })
  | other_status ↦ raised (cannot_cancel (shown other_status))
]
