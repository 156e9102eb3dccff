-- ===== src/Engine/Examples/Sentiments.antt =====
-- A request for the sentiment of a text, with a threshold.
use ai_microservices.Base.Text.{strip, is_space}
use ai_microservices.Base.Value.{null}
use ai_microservices.Engine.Tasks.Sentiment.{Environment, sentiment}
use ai_microservices.Engine.Orchestrator.{Task}
use ai_microservices.Engine.Job.{JobType}
use ai_microservices.Api.Status.Diagram.{Status}
use ai_microservices.Engine.Worker.{Worker}
use ai_microservices.Engine.Orchestrator.{process_job}
use ai_microservices.Engine.Job.{AiJob, done}
use ai_microservices.Engine.Examples.{iso, memory, memory-IsLawful, clock}
use ai_microservices.Api.Ai.{
  SentimentRequest, json, accepted, validate_json_body, validate_sentiment,
}
use ai_microservices.Api.Ai.Submit.{Fresh, poll_url}
use ai_microservices.Api.Ai.Routes.{accepted_202, submit_sentiment, after_read}
use ai_microservices.Api.Ai.Threshold.{threshold_request_fails}
use ai_microservices.Base.{◌≡◌, refl, false, Option, some, none, []}

abbrev environment : Environment
environment = record {
  lower = λ s. s;
  score = λ n. n;
  neutral_score = 0;
  rounded = λ b. b;
  complement = λ b. b;
  elapsed = 0;
  show = λ n. "n";
  repr = λ v. "v";
  overflows = λ z. false;
  no_pipeline = "no attribute '_get_pipeline'";
  no_split = λ v. "no attribute 'split'";
}

abbrev tasks : JobType → Option Task
tasks job_type = some (sentiment environment)

abbrev request : SentimentRequest
request = record { body = "a good day"; neutral_threshold = some 0; tags = none }

abbrev idle : Worker memory tasks
idle = record { store = []; queued = []; is_shut = false; completed = [] }

abbrev fresh : Fresh
fresh = record { job_id = "j1"; created = 3; updated = 4 }

body_accepted :
    validate_json_body (after_read (λ fs. some request) validate_sentiment) (json null)
    ≡ accepted request
unfolding validate_json_body validate_sentiment strip is_space
body_accepted = refl

threshold_request_fails_example :
    (w' : Worker memory tasks) × (job : AiJob) × (submit_sentiment memory tasks iso
        (λ fs. some request)
        fresh
        "http://h"
        (json null)
        idle
      ≡ (accepted_202 "j1" (poll_url "http://h" "j1"), w'))
    × ((process_job memory tasks clock "j1" w'.store).0 ≡ done job)
    × (job.status ≡ Status.failed)
threshold_request_fails_example =
    threshold_request_fails memory memory-IsLawful tasks iso clock fresh environment
      (λ fs. some request) "http://h" (json null) request 0 idle refl body_accepted refl refl refl
