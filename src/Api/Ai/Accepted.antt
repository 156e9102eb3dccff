-- ===== src/Api/Ai/Accepted.antt =====
-- What becomes of a summarization request, from the body to the job.
use ai_microservices.Base.Int.{ℤ}
use ai_microservices.Base.{
  String, ◌≡◌, inl, inr, Option, none, some, [], ◌∷◌, ◌++◌, if◌then◌else◌, Bool-cases, refl,
}
use ai_microservices.Engine.Worker.{Worker, enqueue}
use ai_microservices.Engine.Orchestrator.Outcome.{Keeps, IsSettled}
use ai_microservices.Engine.Orchestrator.Again.{submit_process}
use ai_microservices.Engine.Orchestrator.Verdict.{verdict}
use ai_microservices.Engine.Orchestrator.{Task, Clock, process_job, submit_job}
use ai_microservices.Engine.Job.{JobType, new_job, done, AiJob}
use ai_microservices.Engine.Job.Serial.{Iso, to_dict}
use ai_microservices.Engine.Repository.{AiJobRepository, IsLawful}
use ai_microservices.Api.Status.Diagram.{Status}
use ai_microservices.Base.Value.{Fields, end, Value, field, int, text, get}
use ai_microservices.Api.Ai.{
  SummarizeRequest, Body, accepted, validate_json_body, validate_summarize,
}
use ai_microservices.Api.Ai.Submit.{
  Fresh, poll_url, summarize_payload, tags_or_empty, submit_job_sync, job_to_response, response_of,
  field_if,
}
use ai_microservices.Api.Ai.Routes.{
  Reply, accepted_202, failed, submit_summarize, after_read, answered,
}

-- the limits of a request, as values of a payload
abbrev number : Option ℤ → Option Value
number none = none
number (some n) = some (int n)

abbrev Tagged : Option Fields → Fields → Type 0
Tagged none tags = tags ≡ end
Tagged (some given) tags = tags ≡ given

-- The job is the one that the request asks for, and waits.
pub record IsRequested (f : Fresh) (r : SummarizeRequest) (job : AiJob) : Type 0 where
  pub job_id : job.job_id ≡ f.job_id
  pub job_type : job.job_type ≡ JobType.summarization
  pub status : job.status ≡ Status.pending
  pub result : job.result ≡ none
  pub created_at : job.created_at ≡ f.created
  pub body : get "text" job.payload ≡ some (text r.body)
  pub longest : get "max_new_tokens" job.payload ≡ number r.max_new_tokens
  pub shortest : get "min_new_tokens" job.payload ≡ number r.min_new_tokens
  pub tags : Tagged r.tags job.tags

abbrev pub requested_job : Fresh → SummarizeRequest → AiJob
requested_job f r =
    new_job f.job_id f.created f.updated JobType.summarization (summarize_payload r)
      (tags_or_empty r.tags)

limits_payload :
    (body : String) (longest shortest : Option ℤ)
    → let payload =
        field "text"
          (text body)
          (field_if int "max_new_tokens" longest (field_if int "min_new_tokens" shortest end)) in
      (get "max_new_tokens" payload ≡ number longest)
      × (get "min_new_tokens" payload ≡ number shortest)
limits_payload body none none = (refl, refl)
limits_payload body none (some n) = (refl, refl)
limits_payload body (some m) none = (refl, refl)
limits_payload body (some m) (some n) = (refl, refl)

tags_or_empty-Tagged : (o : Option Fields) → Tagged o (tags_or_empty o)
tags_or_empty-Tagged none = refl
tags_or_empty-Tagged (some tags) = refl

requested_job-IsRequested : (f : Fresh) (r : SummarizeRequest) → IsRequested f r (requested_job f r)
requested_job-IsRequested f r =
    let (longest, shortest) = limits_payload r.body r.max_new_tokens r.min_new_tokens in
    record {
      job_id = refl;
      job_type = refl;
      status = refl;
      result = refl;
      created_at = refl;
      body = refl;
      longest = longest;
      shortest = shortest;
      tags = tags_or_empty-Tagged r.tags;
    }

module _ (R : AiJobRepository) (lawful : IsLawful R) (registry : JobType → Option Task) (iso : Iso)
    (clock : Clock) (f : Fresh) where
  open R use {State, get_by_id}

  -- what the worker is after a submission that stored `s'`
  abbrev pub after_submit : State → Worker R registry → Worker R registry
  after_submit s' w =
      if w.is_shut
      then record w { store = s' }
      else record w { store = s'; queued = w.queued ++ (f.job_id ∷ []) }

  abbrev pub reply_of : String → Worker R registry → Reply
  reply_of base_url w =
      if w.is_shut
      then failed 500 "Failed to submit job"
      else accepted_202 f.job_id (poll_url base_url f.job_id)

  pub store-after_submit : (s' : State) (w : Worker R registry) → (after_submit s' w).store ≡ s'
  store-after_submit s' w = elim (Bool-cases w.is_shut) [ inl e ↦ simp e | inr e ↦ simp e ]

  queued-after_submit :
      (s' : State) (w : Worker R registry)
      → (after_submit s' w).queued ≡ (if w.is_shut then w.queued else w.queued ++ (f.job_id ∷ []))
  queued-after_submit s' w = elim (Bool-cases w.is_shut) [ inl e ↦ simp e | inr e ↦ simp e ]

  -- the three routes, from the payload on
  pub submitted_answered :
      (job_type : JobType) (payload tags : Fields) (base_url : String) (s' : State)
      (w : Worker R registry)
      → submit_job R registry f.job_id f.created f.updated job_type payload tags w.store
        ≡ (done (new_job f.job_id f.created f.updated job_type payload tags), s')
      → answered (
          response_of R registry iso base_url
            (submit_job_sync R registry iso f job_type payload tags w))
        ≡ (reply_of base_url w, after_submit s' w)
  unfolding submit_job_sync enqueue job_to_response to_dict
  submitted_answered job_type payload tags base_url s' w q = elim (Bool-cases w.is_shut) [
    | inl shut ↦ simp (q, shut)
    | inr runs ↦ simp (q, runs)
  ]

  -- A summarization request that its schema accepts, where the identifier is new, is stored as a
  -- pending job of its type with the request's text, limits and tags, and all else is as it was. While the worker
  -- runs, the answer is 202 with the address to poll, the job is at the end of the queue, and
  -- processing it ends with the verdict on its payload. Once the worker is shut down, the answer is
  -- 500 although the job is stored, and nothing is queued.
  pub summarize_answered :
      (read : Fields → Option SummarizeRequest) (base_url : String) (body : Body)
      (r : SummarizeRequest) (w : Worker R registry)
      → validate_json_body (after_read read validate_summarize) body ≡ accepted r
      → get_by_id f.job_id w.store ≡ done none
      → (w' : Worker R registry) × (submit_summarize R registry iso read f base_url body w
          ≡ (reply_of base_url w, w'))
        × (w'.queued ≡ (if w.is_shut then w.queued else w.queued ++ (f.job_id ∷ [])))
        × (job : AiJob) × (IsRequested f r job)
        × (get_by_id f.job_id w'.store ≡ done (some job))
        × (Keeps R lawful registry f.job_id w.store w'.store)
        × (IsSettled R lawful registry clock job w'.store
            (verdict registry JobType.summarization job.payload)
            (process_job R registry clock f.job_id w'.store))
  unfolding submit_summarize
  summarize_answered read base_url body r w ok free =
      let (s', q, held, keeps, settled) =
        submit_process R lawful registry clock f.created f.updated JobType.summarization
          (summarize_payload r) (tags_or_empty r.tags) f.job_id w.store free in
      (
        after_submit s' w,
        simp (ok, submit_summarize) (submitted_answered _ _ _ base_url s' w q),
        queued-after_submit s' w,
        requested_job f r,
        requested_job-IsRequested f r,
        rw (store-after_submit s' w) held,
        rw (store-after_submit s' w) keeps,
        rw (store-after_submit s' w) settled,
      )
