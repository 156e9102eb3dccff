-- ===== src/Api/Ai/Submit.antt =====
-- services/api_service/src/application/use_cases/ai_processing.py, over the worker of ai_engine that
-- container.py builds.
use ai_microservices.Base.Text.{truthy}
use Prim.Native.Char.{code}
use Prim.Native.String.{◌++◌}
use ai_microservices.Base.{
  String, ℕ, Option, none, some, ◌&&◌, List, [], ◌∷◌, if◌then◌else◌, nat_eq, string_eq, ◌==◌,
  pair_eq,
}
use ai_microservices.Base.Value.{
  Value, Fields, field, end, get, text, int, float, null, object, array, Items, nil, cons,
}
use ai_microservices.Engine.Job.{Attempt, raised, done, AiJob, JobType}
use ai_microservices.Engine.Job.Serial.{Iso, to_dict}
use ai_microservices.Engine.Repository.{AiJobRepository}
use ai_microservices.Engine.Orchestrator.{Task, submit_job, get_job}
use ai_microservices.Engine.Worker.{Worker, enqueue}
use ai_microservices.Api.Ai.{
  SummarizeRequest, SentimentRequest, ProfileRequest, Dataset, csv, records,
}

-- `s.rstrip('/')`
unfoldable pub rstrip_slash : String → String
rstrip_slash String.[] = ""
rstrip_slash (String.◌∷◌ c s) =
    let rest = rstrip_slash s in if code c == 47 && rest == "" then "" else String.◌∷◌ c rest

abbrev pub poll_url : String → String → String
poll_url base_url job_id = rstrip_slash base_url ++ ("/api/v1/jobs/" ++ job_id)

-- `d[key]` of a key that is there
abbrev item : String → Fields → Value
item key d = elim (get key d) [ none ↦ null | some v ↦ v ]

-- `_job_to_response`
unfoldable pub job_to_response : Iso → AiJob → String → Fields
job_to_response iso job base_url =
    let d = to_dict iso job in
    field "job_id" (item "job_id" d) (
      field "job_type" (item "job_type" d) (
        field "status" (item "status" d) (
          field "created_at" (item "created_at" d) (
            field "updated_at" (item "updated_at" d) (
              field "result" (item "result" d) (
                field "tags" (item "tags" d)
                  (field "poll_url" (text (poll_url base_url job.job_id)) end)))))))

-- `if value is not None: payload[key] = value`
abbrev pub field_if : {A : Type 0} → (A → Value) → String → Option A → Fields → Fields
field_if value key none rest = rest
field_if value key (some a) rest = field key (value a) rest

abbrev pub summarize_payload : SummarizeRequest → Fields
summarize_payload r = field "text" (text r.body) (
    field_if int "max_new_tokens" r.max_new_tokens
      (field_if int "min_new_tokens" r.min_new_tokens end))

abbrev pub sentiment_payload : SentimentRequest → Fields
sentiment_payload r =
    field "text" (text r.body) (field_if float "neutral_threshold" r.neutral_threshold end)

abbrev items : List Fields → Items
items [] = nil
items (r ∷ rs) = cons (object r) (items rs)

abbrev pub dataset_value : Dataset → Value
dataset_value (csv s) = text s
dataset_value (records rs) = array (items rs)

-- `input_type or "auto"`
abbrev type_or_auto : Option String → String
type_or_auto none = "auto"
type_or_auto (some t) = if truthy t then t else "auto"

abbrev pub profile_payload : ProfileRequest → Fields
profile_payload r =
    field "data" (dataset_value r.content)
      (field "input_type" (text (type_or_auto r.input_type)) end)

-- `tags or {}`
abbrev pub tags_or_empty : Option Fields → Fields
tags_or_empty none = end
tags_or_empty (some tags) = tags

-- what `uuid4` and the two readings of the clock give
pub record Fresh : Type 0 where
  pub job_id : String
  pub created : ℕ
  pub updated : ℕ

module _ (R : AiJobRepository) (registry : JobType → Option Task) (iso : Iso) where
  abbrev enqueued :
      AiJob → Attempt (Unit {0}) × Worker R registry → Attempt AiJob × Worker R registry
  enqueued job (raised e, w) = (raised e, w)
  enqueued job (done u, w) = (done job, w)

  abbrev submitted : Attempt AiJob × R.State → Worker R registry → Attempt AiJob × Worker R registry
  submitted (raised e, s) w = (raised e, record w { store = s })
  submitted (done job, s) w = enqueued job (enqueue R registry job.job_id (record w { store = s }))

  -- `SyncWorkerAdapter.submit_job_sync` and `get_job_sync`
  unfoldable pub submit_job_sync :
      Fresh → JobType → Fields → Fields → Worker R registry → Attempt AiJob × Worker R registry
  submit_job_sync f job_type payload tags w =
      submitted (submit_job R registry f.job_id f.created f.updated job_type payload tags w.store) w

  abbrev pub get_job_sync : String → Worker R registry → Attempt AiJob
  get_job_sync job_id w = get_job R registry job_id w.store

  abbrev pub response_of :
      String → Attempt AiJob × Worker R registry → Attempt Fields × Worker R registry
  response_of base_url (raised e, w) = (raised e, w)
  response_of base_url (done job, w) = (done (job_to_response iso job base_url), w)

  -- the `execute` of the three use cases
  abbrev pub execute_summarize :
      Fresh → SummarizeRequest → String → Worker R registry → Attempt Fields × Worker R registry
  execute_summarize f r base_url w =
      response_of base_url
        (submit_job_sync f JobType.summarization (summarize_payload r) (tags_or_empty r.tags) w)

  abbrev pub execute_sentiment :
      Fresh → SentimentRequest → String → Worker R registry → Attempt Fields × Worker R registry
  execute_sentiment f r base_url w =
      response_of base_url (
        submit_job_sync f JobType.sentiment_analysis (sentiment_payload r) (tags_or_empty r.tags) w)

  abbrev pub execute_profile :
      Fresh → ProfileRequest → String → Worker R registry → Attempt Fields × Worker R registry
  execute_profile f r base_url w =
      response_of base_url
        (submit_job_sync f JobType.dataset_profiling (profile_payload r) (tags_or_empty r.tags) w)

  -- `GetAIJobUseCase.execute`
  abbrev pub execute_get : String → String → Worker R registry → Attempt Fields
  execute_get job_id base_url w = elim (get_job_sync job_id w) [
    | raised e ↦ raised e
    | done job ↦ done (job_to_response iso job base_url)
  ]
