-- ===== src/Api/Job.antt =====
-- services/api_service/src/domain/entities/job.py. A time is a number of microseconds, and each
-- method takes the reading of the clock that it makes. A method that raises leaves the job alone.
pub mod Validity
pub mod Lifecycle
pub mod Reached
use ai_microservices.Base.{
  ℕ, ◌-◌, ◌*◌, String, Bool, true, false, not, ◌&&◌, ◌||◌, Option, none, some, string_eq, ◌==◌,
  is_some, if◌then◌else◌, ltb,
}
use ai_microservices.Base.Int.{ℤ, pos, sub_ℕ, ltb_ℤ, leb_ℤ, ◌*ℤ◌}
use ai_microservices.Base.Text.{truthy, strip}
use ai_microservices.Base.Value.{Fields}
use ai_microservices.Api.Result.{Result, ok, err, value_error, ◌>>=◌, ◌>>◌, require}
use ai_microservices.Api.Status.{
  pending, running, completed, failed, cancelled, can_transition, is_terminal, min_priority,
  max_priority, priority_accepted,
}
use ai_microservices.Api.Status

pub record Job : Type 0 where
  pub id : String
  pub user_id : Option String
  pub job_type : String
  pub status : String
  pub priority : ℤ
  pub input_data : Fields
  pub result : Option Fields
  pub error : Option String
  pub created_at : ℕ
  pub started_at : Option ℕ
  pub completed_at : Option ℕ
  pub timeout_seconds : Option ℤ

-- `Job.create`; `fresh_id` is what `str(uuid4())` returns
unfoldable pub create : String → ℕ → String → Fields → Option String → ℤ → Option ℤ → Result Job
create fresh_id now job_type input_data user_id priority timeout_seconds = do
  require (truthy job_type && truthy (strip job_type)) value_error
  require (priority_accepted priority) value_error
  ok (record {
    id = fresh_id;
    user_id = user_id;
    job_type = strip job_type;
    status = pending;
    priority = priority;
    input_data = input_data;
    result = none;
    error = none;
    created_at = now;
    started_at = none;
    completed_at = none;
    timeout_seconds = timeout_seconds;
  })

unfoldable pub start : ℕ → Job → Result Job
start now j = do
  require (can_transition j.status running) value_error
  ok (record j { status = running; started_at = some now })

unfoldable pub complete : ℕ → Fields → Job → Result Job
complete now result j = do
  require (can_transition j.status completed) value_error
  ok (record j { status = completed; result = some result; completed_at = some now; error = none })

unfoldable pub fail : ℕ → String → Job → Result Job
fail now error_message j = do
  require (can_transition j.status failed) value_error
  ok (record j {
    status = failed;
    error = some error_message;
    result = none;
    completed_at = some now;
  })

unfoldable pub cancel : ℕ → Job → Result Job
cancel now j = do
  require (can_transition j.status cancelled) value_error
  ok (record j { status = cancelled; completed_at = some now })

-- `a and a < b`
abbrev pub earlier : Option ℕ → ℕ → Bool
earlier none b = false
earlier (some a) b = ltb a b

-- `completed_at and started_at and completed_at < started_at`
abbrev pub earlier_than : Option ℕ → Option ℕ → Bool
earlier_than a none = false
earlier_than a (some b) = earlier a b

abbrev pub text_or_empty : Option String → String
text_or_empty none = ""
text_or_empty (some s) = s

-- the body of `is_valid`, return by return
unfoldable pub is_valid : Job → Bool
is_valid j =
    if not (truthy j.id) || not (truthy j.job_type)
    then false
    else if not (Status.is_valid j.status)
    then false
    else if not (leb_ℤ min_priority j.priority && leb_ℤ j.priority max_priority)
    then false
    else if earlier j.started_at j.created_at
    then false
    else if earlier j.completed_at j.created_at
    then false
    else if earlier_than j.completed_at j.started_at
    then false
    else if is_terminal j.status && not (is_some j.completed_at)
    then false
    else if not (is_terminal j.status) && j.status == running && not (is_some j.started_at)
    then false
    else if j.status == completed && is_some j.error
    then false
    else not (j.status == failed && not (truthy (text_or_empty j.error)))

-- `completed_at or datetime.now()`
abbrev pub end_time : ℕ → Option ℕ → ℕ
end_time now none = now
end_time now (some t) = t

-- In microseconds; negative if the clock ran backwards.
unfoldable pub get_elapsed : ℕ → Job → Option ℤ
get_elapsed now j = elim j.started_at [
  | none ↦ none
  | some t ↦ some (sub_ℕ (end_time now j.completed_at) t)
]

-- `not self.timeout_seconds` holds of None and of 0
unfoldable pub is_timed_out : ℕ → Job → Bool
unfolding get_elapsed
is_timed_out now j = elim j.timeout_seconds [
  | none ↦ false
  | some timeout ↦ elim (get_elapsed now j) [
    | none ↦ false
    | some elapsed ↦
        not (leb_ℤ timeout (pos 0) && leb_ℤ (pos 0) timeout) && ltb_ℤ (timeout *ℤ 1000000) elapsed
  ]
]
