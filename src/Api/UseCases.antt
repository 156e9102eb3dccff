-- ===== src/Api/UseCases.antt =====
-- services/api_service/src/application/use_cases/job: what the six use cases share. A service is a
-- repository with what the use cases take from outside: whether an event publisher and a dispatcher
-- are wired in, how a time is printed, and which DTOs the validation library accepts.
pub mod Commit
pub mod Create
pub mod Read
pub mod Cancel
pub mod Update
pub mod Delete
use ai_microservices.Base.{
  ℕ, String, Bool, Option, none, some, List, ◌++◌, [], ◌∷◌, map, if◌then◌else◌,
}
use mathlib.Core.Option
use ai_microservices.Base.Int.{ℤ, pos}
use ai_microservices.Base.Value.{Fields}
use ai_microservices.Api.Result.{Error, Result, ok, err, value_error}
use ai_microservices.Api.Effects.{Exec, lift, modify}
use ai_microservices.Api.Job.{Job}
use ai_microservices.Api.Repository.{JobRepository}

-- application/dto/job_dto.py; `user_id` and `timeout_seconds` are declared `str` and `int`, and are
-- given what the job holds
pub record JobDto : Type 0 where
  pub id : String
  pub user_id : Option String
  pub job_type : String
  pub status : String
  pub priority : ℤ
  pub created_at : Option String
  pub started_at : Option String
  pub completed_at : Option String
  pub result : Option Fields
  pub error : Option String
  pub input_data : Fields
  pub timeout_seconds : Option ℤ

-- the calls of `event_publisher.publish`; what it raises is caught and logged
pub data Event : Type 0 where
  job_created : String → Option String → String → ℤ → String → Fields → Event
  job_updated : String → Option String → String → ℤ → Option String → Event
  job_cancelled : String → Option String → Option String → Event
  job_deleted : String → Option String → String → String → Event

-- the calls of `job_dispatcher.dispatch`; what it raises is caught and logged
pub record Dispatch : Type 0 where
  pub job_id : String
  pub job_type : String
  pub input_data : Fields
  pub user_id : Option String
  pub priority : ℤ
  pub timeout_seconds : Option ℤ

pub record Service : Type 1 where
  pub repository : JobRepository
  pub has_publisher : Bool
  pub has_dispatcher : Bool
  -- `t.isoformat()`, and the same with "+00:00" replaced by "Z"
  pub isoformat : ℕ → String
  pub isoformat_z : ℕ → String
  -- whether constructing the DTO succeeds; if not, it raises a ValidationError, a ValueError
  pub accepts : JobDto → Bool

module _ (S : Service) where
  open S use {
    repository.{State, save, find_by_id, delete, touch},
    has_publisher,
    has_dispatcher,
    isoformat_z,
    accepts,
  }

  -- the store, and the calls made on the broker so far
  pub record World : Type 0 where
    pub store : State
    pub events : List Event
    pub dispatched : List Dispatch

  unfoldable pub find : String → Exec World (Option Job)
  find job_id w = (find_by_id job_id w.store, w)

  unfoldable pub persist : Job → Exec World Job
  persist job w = let (r, s) = save job w.store in (r, record w { store = s })

  unfoldable pub remove : String → Exec World Bool
  remove job_id w = let (r, s) = delete job_id w.store in (r, record w { store = s })

  -- assignments to the fields of a job that `find` returned
  unfoldable pub assign : Job → Exec World Unit
  assign job = modify (λ w. record w { store = touch job w.store })

  -- `if self.event_publisher: …publish(…)`
  unfoldable pub publish : Event → Exec World Unit
  publish e = modify (λ w. if has_publisher then record w { events = w.events ++ e ∷ [] } else w)

  -- `if self.job_dispatcher: …dispatch(…)`
  unfoldable pub dispatch : Dispatch → Exec World Unit
  dispatch d =
      modify (λ w. if has_dispatcher then record w { dispatched = w.dispatched ++ d ∷ [] } else w)

  unfoldable pub construct : JobDto → Result JobDto
  construct d = if accepts d then ok d else err value_error

  -- `_map_to_dto` of the get, list, cancel and update use cases
  unfoldable pub dto_of : Job → JobDto
  dto_of job = record {
    id = job.id;
    user_id = job.user_id;
    job_type = job.job_type;
    status = job.status;
    priority = job.priority;
    created_at = some (isoformat_z job.created_at);
    started_at = Option.map isoformat_z job.started_at;
    completed_at = Option.map isoformat_z job.completed_at;
    result = job.result;
    error = job.error;
    input_data = job.input_data;
    timeout_seconds = job.timeout_seconds;
  }

  unfoldable pub map_to_dto : Job → Result JobDto
  unfolding dto_of construct
  map_to_dto job = construct (dto_of job)
