-- ===== src/Api/Ai/Bodies.antt =====
-- What each kind of body is answered with: `validate_json_body` of middleware/validation.py, and the
-- route for summaries behind it.
use ai_microservices.Base.Value.{Fields, null, object, end}
use ai_microservices.Base.{
  ℕ, String, Option, none, some, Bool, ◌≡◌, true, false, refl, ◌⊎◌, inl, inr, Option-cases,
}
use ai_microservices.Engine.Worker.{Worker}
use ai_microservices.Engine.Orchestrator.{Task, Clock}
use ai_microservices.Engine.Job.{JobType, AiJob, done}
use ai_microservices.Engine.Job.Serial.{Iso}
use ai_microservices.Engine.Repository.{AiJobRepository, IsLawful}
use ai_microservices.Api.Ai.{
  SummarizeRequest, Body, not_json, malformed, json, validate_json_body, validate_summarize,
  refusal_code, accepted, rejected, Refusal, content_type, json_decode, invalid_fields, not_mapping,
  built,
}
use ai_microservices.Api.Ai.Submit.{Fresh}
use ai_microservices.Api.Ai.Routes.{
  Reply, accepted_202, failed, refused, submit_summarize, after_read,
}
use ai_microservices.Api.Ai.Accepted.{IsRequested, summarize_answered}

-- the fields that a body gives; `null` counts as an empty object
abbrev pub fields_of : Body → Option Fields
fields_of (json null) = some end
fields_of (json (object fs)) = some fs
fields_of body = none

abbrev pub is_json : Body → Bool
is_json (json v) = true
is_json body = false

-- the code of the answer
abbrev pub code_of : Reply → ℕ
code_of (accepted_202 job_id url) = 202
code_of (failed code message) = code
code_of (refused refusal) = refusal_code refusal

module _ {A : Type 0} (schema : Fields → Option A) where
  -- the four ways that the validation ends
  abbrev pub Ways : Body → Type 0
  Ways body =
      ((fs : Fields) × (a : A) × (fields_of body ≡ some fs)
        × (schema fs ≡ some a)
        × (validate_json_body schema body ≡ accepted a))
      ⊎ ((fs : Fields) × (fields_of body ≡ some fs)
          × (schema fs ≡ none)
          × (validate_json_body schema body ≡ rejected invalid_fields))
      ⊎ ((is_json body ≡ true)
          × (fields_of body ≡ none)
          × (validate_json_body schema body ≡ rejected not_mapping))
      ⊎ ((is_json body ≡ false)
          × (r : Refusal) × (validate_json_body schema body ≡ rejected r)
          × (refusal_code r ≡ 400))

  Ways-built :
      (body : Body) (fs : Fields)
      → fields_of body ≡ some fs
      → validate_json_body schema body ≡ built schema (schema fs)
      → Ways body
  Ways-built body fs e q = elim (Option-cases (schema fs)) [
    | inl n ↦ inr (inl (fs, e, n, simp n at q))
    | inr (a, n) ↦ inl (fs, a, e, n, simp n at q)
  ]

  ways : (body : Body) → Ways body
  unfolding validate_json_body
  ways (json null) = Ways-built (json null) end refl refl
  ways (json (object fs)) = Ways-built (json (object fs)) fs refl refl
  ways not_json = inr (inr (inr (refl, content_type, refl, refl)))
  ways malformed = inr (inr (inr (refl, json_decode, refl, refl)))
  ways (json v) = inr (inr (inl (refl, refl, refl)))

module _ (R : AiJobRepository) (lawful : IsLawful R) (registry : JobType → Option Task) (iso : Iso)
    (clock : Clock) (f : Fresh) (read : Fields → Option SummarizeRequest) (base_url : String)
    (w : Worker R registry) where
  refused_body :
      (body : Body) (r : Refusal)
      → validate_json_body (after_read read validate_summarize) body ≡ rejected r
      → submit_summarize R registry iso read f base_url body w ≡ (refused r, w)
  unfolding submit_summarize
  refused_body body r e = simp (submit_summarize, e)

  -- While the worker runs and where the identifier is new, the route for summaries answers every body
  -- in one of four ways: with 202, and the job that is asked for is stored, where the body is JSON, an
  -- object or null, whose fields the schema accepts, null with no fields; with 400 where the schema
  -- refuses the fields; with 500 where the body is JSON of another kind, a list, a text, a number or
  -- a Boolean value; and with 400 where it is no JSON. In the last three the worker and its store stay
  -- as they were.
  pub body_answered :
      (body : Body)
      → w.is_shut ≡ false
      → R.get_by_id f.job_id w.store ≡ done none
      → let (reply, w') = submit_summarize R registry iso read f base_url body w in
        ((fs : Fields) × (r : SummarizeRequest) × (job : AiJob) × (fields_of body ≡ some fs)
          × (after_read read validate_summarize fs ≡ some r)
          × (code_of reply ≡ 202)
          × (R.get_by_id f.job_id w'.store ≡ done (some job))
          × IsRequested f r job)
        ⊎ ((fs : Fields) × (fields_of body ≡ some fs)
            × (after_read read validate_summarize fs ≡ none)
            × (code_of reply ≡ 400)
            × (w' ≡ w))
        ⊎ ((is_json body ≡ true) × (fields_of body ≡ none) × (code_of reply ≡ 500) × (w' ≡ w))
        ⊎ ((is_json body ≡ false) × (code_of reply ≡ 400) × (w' ≡ w))
  body_answered body runs free = elim (ways (after_read read validate_summarize) body) [
    | inl (fs, r, e, q, ok) ↦
        let (w', answer, queued, job, asked, held, keeps, settled) =
          summarize_answered R lawful registry iso clock f read base_url body r w ok free in
        inl (fs, r, job, e, q, simp (answer, runs), simp (answer, held), asked)
    | inr (inl (fs, e, q, bad)) ↦
        inr (inl (fs, e, q, simp (refused_body body _ bad), simp (refused_body body _ bad)))
    | inr (inr (inl (e, q, bad))) ↦
        inr (inr (inl (e, q, simp (refused_body body _ bad), simp (refused_body body _ bad))))
    | inr (inr (inr (e, r, bad, code))) ↦
        inr (inr (inr (e, simp (refused_body body _ bad, code), simp (refused_body body _ bad))))
  ]
