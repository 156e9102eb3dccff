-- ===== src/Api/UseCases/Create/Outcome.antt =====
-- What the creation of a job stores, sends and returns.
use ai_microservices.Api.Job.Validity.{Rules, is_valid_iff}
use ai_microservices.Base.Text.{strip}
use ai_microservices.Base.{
  ℕ, String, ◌≡◌, inl, inr, true, some, arith, if◌then◌else◌, Bool-cases, ◌==◌, nat_eq, string_eq,
  pair_eq, none, ap, ◌∙◌,
}
use ai_microservices.Api.Result.{Error, Result, ok, err, repository_error}
use ai_microservices.Api.Effects.{lift, ◌>>◌, ◌>>=◌}
use ai_microservices.Api.Repository.{IsLawful}
use ai_microservices.Api.Job.{Job, is_valid}
use ai_microservices.Api.Job
use ai_microservices.Api.UseCases.{Service, World, JobDto, construct, persist, dispatch, publish}
use ai_microservices.Api.UseCases.Commit.{Result-cases, persist_ok, persist_err, Keeps}
use ai_microservices.Api.UseCases.Create.{
  execute, CreateJobDto, dispatch_to_queue, publish_created, created_dto,
}

-- the job that the use case creates
abbrev pub requested : String → ℕ → CreateJobDto → Result Job
requested fresh_id now dto =
    Job.create fresh_id now dto.job_type dto.input_data (some dto.user_id) dto.priority
      (some dto.timeout_seconds)

-- the job that the arguments ask for
abbrev pub asked_for : String → ℕ → CreateJobDto → Job
asked_for fresh_id now dto = record {
  id = fresh_id;
  user_id = some dto.user_id;
  job_type = strip dto.job_type;
  status = "pending";
  priority = dto.priority;
  input_data = dto.input_data;
  result = none;
  error = none;
  created_at = now;
  started_at = none;
  completed_at = none;
  timeout_seconds = some dto.timeout_seconds;
}

requested_ok :
    (fresh_id : String) (now : ℕ) (dto : CreateJobDto) (j : Job)
    → requested fresh_id now dto ≡ ok j
    → j ≡ asked_for fresh_id now dto
unfolding Job.create
requested_ok fresh_id now dto j h = ground arith

module _ (S : Service) (L : IsLawful S.repository) where
  open S use {repository.{find_by_id, save}}

  -- what follows the save keeps the store
  after_save :
      (d : CreateJobDto) (j : Job)
      → Keeps S L
          (dispatch_to_queue S j >> (publish_created S j >> lift (construct S (created_dto S j))))
  unfolding dispatch_to_queue publish_created
  after_save d j w = ground arith

  -- A creation that returns has stored a job that keeps the business rules, under the fresh identifier:
  -- pending, with the given type stripped of its outer blanks, the given input, user, priority and
  -- timeout, made now. Every other job is as it was.
  pub execute_ok :
      (fresh_id : String) (now : ℕ) (dto : CreateJobDto) (w : World S) {d : JobDto}
      → (execute S fresh_id now dto w).0 ≡ ok d
      → Rules (asked_for fresh_id now dto)
        × ((i : String)
            → find_by_id i (execute S fresh_id now dto w).1.store ≡ (
                if fresh_id == i
                then ok (some (asked_for fresh_id now dto))
                else find_by_id i w.store))
  unfolding execute
  execute_ok fresh_id now dto w h = elim (Result-cases (requested fresh_id now dto)) [
    | inr (e, p) ↦ cc (simp p at h)
    | inl (j, p) ↦ elim (Bool-cases (is_valid j)) [
      | inr v ↦ cc (simp (p, v) at h)
      | inl v ↦
          let same = requested_ok fresh_id now dto j p in
          (
            rw⁻¹ same ((is_valid_iff j).0 v),
            λ i.
                simp (p, v)
                  (persist_ok S L j
                      (λ k.
                        dispatch_to_queue S k
                        >> (publish_created S k >> lift (construct S (created_dto S k))))
                      w (after_save dto) (simp (p, v) at h) i
                    ∙ ap (λ (k : Job). if k.id == i then ok (some k) else find_by_id i w.store)
                        same),
          )
    ]
  ]

  -- If the save fails, the call raises the repository's error, nothing is dispatched or published,
  -- and the store is as it was.
  pub execute_unsaved :
      (fresh_id : String) (now : ℕ) (dto : CreateJobDto) (w : World S) {j : Job} {e : Error}
      → requested fresh_id now dto ≡ ok j
      → is_valid j ≡ true
      → (save j w.store).0 ≡ err e
      → execute S fresh_id now dto w ≡ (err repository_error, w)
  unfolding execute
  execute_unsaved fresh_id now dto w {j} p v s =
      simp (p, v)
        (persist_err S L j
          (λ k.
            dispatch_to_queue S k >> (publish_created S k >> lift (construct S (created_dto S k))))
          w s)

-- the end of the use case, over a store that accepts every save
after_valid :
    (S : Service) (j : Job) (w : World S)
    → ((k : Job) (s : S.repository.State) → (S.repository.save k s).0 ≡ ok k)
    → ((d : JobDto) → S.accepts d ≡ true)
    → ((persist S j >>= (λ k.
          dispatch_to_queue S k >> (publish_created S k >> lift (construct S (created_dto S k)))))
        w).0
      ≡ ok (created_dto S j)
unfolding persist dispatch_to_queue publish_created dispatch publish construct
after_valid S j w saves accepts = rw (saves j w.store, ◌>>=◌) (simp accepts)

-- A creation whose job the entity accepts and finds valid returns the DTO of a new job, where every
-- save succeeds and every DTO is accepted.
pub execute_succeeds :
    (S : Service) (fresh_id : String) (now : ℕ) (dto : CreateJobDto) (w : World S) (j : Job)
    → ((k : Job) (s : S.repository.State) → (S.repository.save k s).0 ≡ ok k)
    → ((d : JobDto) → S.accepts d ≡ true)
    → requested fresh_id now dto ≡ ok j
    → is_valid j ≡ true
    → (execute S fresh_id now dto w).0 ≡ ok (created_dto S j)
unfolding execute
execute_succeeds S fresh_id now dto w j saves accepts p v =
    simp (p, v) (after_valid S j w saves accepts)
