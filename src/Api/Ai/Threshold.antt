-- ===== src/Api/Ai/Threshold.antt =====
-- A request for the sentiment of a text with a threshold, from the body to the job.
use ai_microservices.Base.{ℕ, String, ◌≡◌, ap, ◌∙◌, false, Option, none, some}
use ai_microservices.Engine.Worker.{Worker}
use ai_microservices.Engine.Orchestrator.Again.{submit_process}
use ai_microservices.Engine.Orchestrator.{Task, Clock, process_job}
use ai_microservices.Engine.Job.{JobType, done, AiJob}
use ai_microservices.Engine.Job.Serial.{Iso}
use ai_microservices.Engine.Repository.{AiJobRepository, IsLawful}
use ai_microservices.Engine.Tasks.Sentiment.{Environment, sentiment}
use ai_microservices.Engine.Tasks.Summarization.{given}
use ai_microservices.Engine.Tasks.Sentiment.Threshold.{threshold_fails}
use ai_microservices.Api.Status.Diagram.{Status}
use ai_microservices.Base.Value.{Fields, float}
use ai_microservices.Api.Ai.{
  SentimentRequest, Body, accepted, validate_json_body, validate_sentiment,
}
use ai_microservices.Api.Ai.Submit.{Fresh, poll_url, sentiment_payload, tags_or_empty}
use ai_microservices.Api.Ai.Routes.{accepted_202, submit_sentiment, after_read}
use ai_microservices.Api.Ai.Accepted.{after_submit, submitted_answered, store-after_submit}

threshold-sentiment_payload :
    (r : SentimentRequest) (b : ℕ)
    → r.neutral_threshold ≡ some b
    → given "neutral_threshold" (sentiment_payload r) ≡ some (float b)
threshold-sentiment_payload r b h = simp h

-- A sentiment request with a threshold that its schema accepts is answered with 202 while the worker
-- runs, where the identifier is new; but the job, when it is processed, always ends as failed, with
-- the task as the container builds it.
pub threshold_request_fails :
    (R : AiJobRepository) (lawful : IsLawful R) (registry : JobType → Option Task) (iso : Iso)
    (clock : Clock) (f : Fresh) (env : Environment) (read : Fields → Option SentimentRequest)
    (base_url : String) (body : Body) (r : SentimentRequest) (b : ℕ) (w : Worker R registry)
    → registry JobType.sentiment_analysis ≡ some (sentiment env)
    → validate_json_body (after_read read validate_sentiment) body ≡ accepted r
    → r.neutral_threshold ≡ some b
    → R.get_by_id f.job_id w.store ≡ done none
    → w.is_shut ≡ false
    → (w' : Worker R registry) × (job : AiJob) × (submit_sentiment R registry iso read f base_url
          body w
        ≡ (accepted_202 f.job_id (poll_url base_url f.job_id), w'))
      × ((process_job R registry clock f.job_id w'.store).0 ≡ done job)
      × (job.status ≡ Status.failed)
unfolding submit_sentiment
threshold_request_fails R lawful registry iso clock f env read base_url body r b w known ok given_b
      free runs =
    let (s', q, held, keeps, settled) =
      submit_process R lawful registry clock f.created f.updated JobType.sentiment_analysis
        (sentiment_payload r) (tags_or_empty r.tags) f.job_id w.store free in
    let w' : Worker R registry = after_submit R lawful registry iso clock f s' w in
    let a =
      submitted_answered R lawful registry iso clock f JobType.sentiment_analysis
        (sentiment_payload r) (tags_or_empty r.tags) base_url s' w q in
    (
      w',
      settled.returned,
      simp (ok, submit_sentiment) (a ∙ ap (λ x. (x, w')) (simp runs)),
      rw (store-after_submit R lawful registry iso clock f s' w) (settled.returns),
      settled.result_of.status_is
          ∙ threshold_fails env registry (sentiment_payload r) (float b) known
              (threshold-sentiment_payload r b given_b),
    )
