-- ===== src/Api/Ai/Routes.antt =====
-- services/api_service/src/presentation/routes/v1/ai/controller.py. The texts of the answers that
-- refuse a body are left out.
use ai_microservices.Engine.Job.Serial.{Iso}
use ai_microservices.Engine.Orchestrator.{Task}
use ai_microservices.Engine.Repository.{AiJobRepository}
use ai_microservices.Base.{ℕ, String, Option, none, some}
use ai_microservices.Engine.Job.{value_error, other, Attempt, raised, done, JobType}
use ai_microservices.Api.Ai.{
  SummarizeRequest, validate_json_body, Refusal, Checked, rejected, accepted, Body,
  SentimentRequest, ProfileRequest, validate_summarize, validate_sentiment, validate_profile,
}
use ai_microservices.Api.Ai.Submit.{Fresh, execute_summarize, execute_sentiment, execute_profile}
use ai_microservices.Engine.Worker.{Worker}
use ai_microservices.Base.Value.{Value, Fields, text, get}

-- what a route answers: 202 with the identifier and the address to poll, or an error with its code
pub data Reply : Type 0 where
  accepted_202 : String → String → Reply
  failed : ℕ → String → Reply
  refused : Refusal → Reply

-- `AcceptedResponse`, whose fields pydantic takes as texts
abbrev accepted_response : Option Value → Option Value → Reply
accepted_response (some (text job_id)) (some (text url)) = accepted_202 job_id url
accepted_response job_id url = failed 500 "Failed to submit job"

-- the end of a route, with the handlers of its exceptions
abbrev pub answered : {W : Type 0} → Attempt Fields × W → Reply × W
answered (done d, w) = (accepted_response (get "job_id" d) (get "poll_url" d), w)
answered (raised (value_error message), w) = (failed 400 message, w)
answered (raised (other message), w) = (failed 500 "Failed to submit job", w)

-- a route behind the validation of its body
abbrev pub guarded : {A W : Type 0} → (A → W → Reply × W) → Checked A → W → Reply × W
guarded handler (rejected e) w = (refused e, w)
guarded handler (accepted r) w = handler r w

abbrev pub after_read : {A B : Type 0} → (Fields → Option A) → (A → Option B) → Fields → Option B
after_read read validate fs = elim (read fs) [ none ↦ none | some a ↦ validate a ]

module _ (R : AiJobRepository) (registry : JobType → Option Task) (iso : Iso) where
  unfoldable pub submit_summarize :
      (Fields → Option SummarizeRequest)
      → Fresh
      → String
      → Body
      → Worker R registry
      → Reply × Worker R registry
  submit_summarize read f base_url body w =
      guarded (λ r w. answered (execute_summarize R registry iso f r base_url w))
        (validate_json_body (after_read read validate_summarize) body) w

  unfoldable pub submit_sentiment :
      (Fields → Option SentimentRequest)
      → Fresh
      → String
      → Body
      → Worker R registry
      → Reply × Worker R registry
  submit_sentiment read f base_url body w =
      guarded (λ r w. answered (execute_sentiment R registry iso f r base_url w))
        (validate_json_body (after_read read validate_sentiment) body) w

  unfoldable pub submit_profile :
      (Fields → Option ProfileRequest)
      → Fresh
      → String
      → Body
      → Worker R registry
      → Reply × Worker R registry
  submit_profile read f base_url body w =
      guarded (λ r w. answered (execute_profile R registry iso f r base_url w))
        (validate_json_body (after_read read validate_profile) body) w
