-- ===== src/Engine/Job/Serial.antt =====
-- `to_dict` and `from_dict` of ai_engine/domain/models.py. `from_dict` gives none where it raises. A
-- value of another type than the field's, which Python would store as it is, counts as refused.
use ai_microservices.Base.{
  ℕ, String, Bool, Option, none, some, if◌then◌else◌, ◌==◌, string_eq, ◌≡◌, refl, nat_eq, pair_eq,
}
use ai_microservices.Base.Maybe.{◌>>=◌}
use ai_microservices.Base.Value.{get, Value, Fields, end, field, null, bool, text, object}
use ai_microservices.Api.Status.Diagram.{Status, name}
use ai_microservices.Engine.Job.{JobType, type_value, JobResult, AiJob}

-- `datetime.isoformat` and `datetime.fromisoformat`
pub record Iso : Type 0 where
  pub isoformat : ℕ → String
  pub fromisoformat : String → Option ℕ

-- what the documentation of `fromisoformat` promises
abbrev pub IsInverse : Iso → Type 0
IsInverse iso = (t : ℕ) → iso.fromisoformat (iso.isoformat t) ≡ some t

abbrev pub type_of : String → Option JobType
type_of s =
    if s == "summarization"
    then some JobType.summarization
    else if s == "sentiment_analysis"
    then some JobType.sentiment_analysis
    else if s == "dataset_profiling"
    then some JobType.dataset_profiling
    else none

abbrev pub status_of : String → Option Status
status_of s =
    if s == "pending"
    then some Status.pending
    else if s == "running"
    then some Status.running
    else if s == "completed"
    then some Status.completed
    else if s == "failed"
    then some Status.failed
    else if s == "cancelled"
    then some Status.cancelled
    else none

abbrev as_text : Value → Option String
as_text (text s) = some s
as_text _ = none

abbrev as_bool : Value → Option Bool
as_bool (bool b) = some b
as_bool _ = none

abbrev as_object : Value → Option Fields
as_object (object fs) = some fs
as_object _ = none

-- `raw.get(key, {})`
abbrev object_or_empty : Option Value → Option Fields
object_or_empty none = some end
object_or_empty (some v) = as_object v

-- `raw.get("error")`
abbrev text_or_none : Option Value → Option (Option String)
text_or_none none = some none
text_or_none (some null) = some none
text_or_none (some (text s)) = some (some s)
text_or_none (some v) = none

abbrev pub error_value : Option String → Value
error_value none = null
error_value (some s) = text s

unfoldable pub result_to_dict : JobResult → Fields
result_to_dict r = field "success" (bool r.success) (
    field "data" (object r.output)
      (field "error" (error_value r.error) (field "metadata" (object r.metadata) end)))

unfoldable pub result_from_dict : Fields → Option JobResult
result_from_dict raw = do
  success ← get "success" raw >>= as_bool
  output ← object_or_empty (get "data" raw)
  error ← text_or_none (get "error" raw)
  metadata ← object_or_empty (get "metadata" raw)
  some (record { success = success; output = output; error = error; metadata = metadata })

abbrev pub result_value : Option JobResult → Value
result_value none = null
result_value (some r) = object (result_to_dict r)

-- `AIJobResult.from_dict(raw["result"]) if raw.get("result") else None`: an empty dict is false
abbrev result_of : Option Value → Option (Option JobResult)
result_of none = some none
result_of (some null) = some none
result_of (some (object end)) = some none
result_of (some (object (field k v fs))) = result_from_dict (field k v fs) >>= λ r. some (some r)
result_of (some v) = none

module _ (iso : Iso) where
  unfoldable pub to_dict : AiJob → Fields
  to_dict j = field "job_id" (text j.job_id) (
      field "job_type" (text (type_value j.job_type)) (
        field "status" (text (name j.status)) (
          field "payload" (object j.payload) (
            field "result" (result_value j.result) (
              field "created_at" (text (iso.isoformat j.created_at)) (
                field "updated_at" (text (iso.isoformat j.updated_at))
                  (field "tags" (object j.tags) end)))))))

  unfoldable pub from_dict : Fields → Option AiJob
  from_dict raw = do
    job_id ← get "job_id" raw >>= as_text
    job_type ← get "job_type" raw >>= as_text >>= type_of
    status ← get "status" raw >>= as_text >>= status_of
    payload ← object_or_empty (get "payload" raw)
    result ← result_of (get "result" raw)
    created_at ← get "created_at" raw >>= as_text >>= iso.fromisoformat
    updated_at ← get "updated_at" raw >>= as_text >>= iso.fromisoformat
    tags ← object_or_empty (get "tags" raw)
    some (record {
      job_type = job_type;
      payload = payload;
      job_id = job_id;
      status = status;
      result = result;
      created_at = created_at;
      updated_at = updated_at;
      tags = tags;
    })

  type_of-value : (t : JobType) → type_of (type_value t) ≡ some t
  type_of-value JobType.summarization = refl
  type_of-value JobType.sentiment_analysis = refl
  type_of-value JobType.dataset_profiling = refl

  status_of-name : (s : Status) → status_of (name s) ≡ some s
  status_of-name Status.pending = refl
  status_of-name Status.running = refl
  status_of-name Status.completed = refl
  status_of-name Status.failed = refl
  status_of-name Status.cancelled = refl

  text_or_none-value : (e : Option String) → text_or_none (some (error_value e)) ≡ some e
  text_or_none-value none = refl
  text_or_none-value (some s) = refl

  result_of-value : (r : Option JobResult) → result_of (some (result_value r)) ≡ some r
  unfolding result_to_dict result_from_dict
  result_of-value none = refl
  result_of-value (some r) = simp (text_or_none-value r.error)

  -- Reading a job from the dictionary that it was written to gives the job back.
  pub from_dict-to_dict : IsInverse iso → (j : AiJob) → from_dict (to_dict j) ≡ some j
  unfolding to_dict from_dict
  from_dict-to_dict inverse j = simp (type_of-value, status_of-name, result_of-value, inverse)
