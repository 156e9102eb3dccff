-- ===== src/Engine/Examples/Requests.antt =====
-- A request of the API for a summary, over a repository in memory.
use ai_microservices.Base.Text.Split.{split}
use ai_microservices.Base.Text.{strip, is_space}
use ai_microservices.Base.Int.{pos}
use ai_microservices.Base.{
  ◌⊎◌, ◌≤◌, ◌≡◌, refl, ◌↔◌, true, false, Option, none, some, [], ◌∷◌, length,
}
use ai_microservices.Base.Value.{Value, Fields, Items}
use ai_microservices.Engine.Worker.{Worker}
use ai_microservices.Engine.Job.{done, JobType, AiJob}
use ai_microservices.Engine.Orchestrator.{process_job}
use ai_microservices.Engine.Orchestrator.Verdict.{verdict}
use ai_microservices.Engine.Orchestrator.Outcome.{IsSettled, Keeps}
use ai_microservices.Engine.Examples.{iso, memory, memory-IsLawful, registry, clock}
use ai_microservices.Engine.Examples.Summaries.{environment}
use ai_microservices.Engine.Tasks.Summarization.{validate_payload}
use ai_microservices.Api.Ai.{
  SummarizeRequest, Body, json, accepted, validate_json_body, validate_summarize,
}
use ai_microservices.Api.Ai.Submit.{Fresh, poll_url, summarize_payload}
use ai_microservices.Api.Ai.Routes.{accepted_202, submit_summarize, after_read}
use ai_microservices.Api.Ai.Accepted.{summarize_answered, IsRequested}
use ai_microservices.Api.Ai.Payload.{accepted_payload_iff}
use ai_microservices.Api.Ai.Bodies.{body_answered, fields_of, is_json, code_of}

abbrev request : SummarizeRequest
request = record {
  body = "a b c";
  max_new_tokens = some (pos 9);
  min_new_tokens = none;
  tags = none;
}

-- what pydantic reads
abbrev read : Fields → Option SummarizeRequest
read fs = some (record request { body = " a b c " })

abbrev fresh : Fresh
fresh = record { job_id = "j1"; created = 3; updated = 4 }

abbrev idle : Worker memory registry
idle = record { store = []; queued = []; is_shut = false; completed = [] }

validated : validate_summarize (record request { body = " a b c " }) ≡ some request
unfolding validate_summarize strip is_space
validated = refl

body_accepted :
    validate_json_body (after_read read validate_summarize) (json Value.null) ≡ accepted request
unfolding validate_json_body validate_summarize strip is_space
body_accepted = refl

accepted_payload_iff_example :
    (validate_payload environment (summarize_payload request) ≡ done tt)
    ↔ ((20 ≤ length (split "a b c")) × (length (split "a b c") ≤ 50000))
accepted_payload_iff_example =
    accepted_payload_iff environment (record request { body = " a b c " }) request validated

summarize_answered_example :
    (w' : Worker memory registry) × (submit_summarize memory registry iso read fresh "http://h/"
        (json Value.null)
        idle
      ≡ (accepted_202 "j1" (poll_url "http://h/" "j1"), w'))
    × (w'.queued ≡ "j1" ∷ [])
    × (job : AiJob) × (IsRequested fresh request job)
    × (memory.get_by_id "j1" w'.store ≡ done (some job))
    × (Keeps memory memory-IsLawful registry "j1" [] w'.store)
    × (IsSettled memory memory-IsLawful registry clock job w'.store
        (verdict registry JobType.summarization job.payload)
        (process_job memory registry clock "j1" w'.store))
summarize_answered_example =
    summarize_answered memory memory-IsLawful registry iso clock fresh read "http://h/"
      (json Value.null) request idle body_accepted refl

-- a list in place of an object
abbrev listed : Body
listed = json (Value.array Items.nil)

body_answered_example :
    let (reply, w') = submit_summarize memory registry iso read fresh "http://h/" listed idle in
    ((fs : Fields) × (r : SummarizeRequest) × (job : AiJob) × (fields_of listed ≡ some fs)
      × (after_read read validate_summarize fs ≡ some r)
      × (code_of reply ≡ 202)
      × (memory.get_by_id "j1" w'.store ≡ done (some job))
      × IsRequested fresh r job)
    ⊎ ((fs : Fields) × (fields_of listed ≡ some fs)
        × (after_read read validate_summarize fs ≡ none)
        × (code_of reply ≡ 400)
        × (w' ≡ idle))
    ⊎ ((is_json listed ≡ true) × (fields_of listed ≡ none) × (code_of reply ≡ 500) × (w' ≡ idle))
    ⊎ ((is_json listed ≡ false) × (code_of reply ≡ 400) × (w' ≡ idle))
body_answered_example =
    body_answered memory memory-IsLawful registry iso clock fresh read "http://h/" idle listed refl
      refl
