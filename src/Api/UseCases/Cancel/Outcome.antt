-- ===== src/Api/UseCases/Cancel/Outcome.antt =====
-- What a cancellation does, and when it is refused.
use ai_microservices.Api.Effects.{◌>>◌, lift, ◌>>=◌}
use ai_microservices.Api.UseCases.Commit.{commit_ok, Result-cases, publish-Keeps}
use ai_microservices.Base.{
  ℕ, String, ◌≡◌, ◌⊎◌, inl, inr, Bool, true, false, some, [], ◌∷◌, if◌then◌else◌, Bool-cases, ◌==◌,
  nat_eq, string_eq, pair_eq, contains, sym, arith, eq_iff, not, ◌&&◌, Option-cases, none, ap, ◌∙◌,
  ==_refl,
}
use ai_microservices.Base.Text.{truthy}
use ai_microservices.Api.Result.{ok, err, permission_error, invalid_job_status}
use ai_microservices.Api.Repository.{IsLawful, IsIndexed, TouchesOne}
use ai_microservices.Api.Job.{Job}
use ai_microservices.Api.Job
use ai_microservices.Api.Status.{can_transition}
use ai_microservices.Api.Status as JobStatus
use ai_microservices.Api.UseCases.{
  Service, World, JobDto, find, map_to_dto, assign, persist, publish, construct, dto_of,
}
use ai_microservices.Api.UseCases.Cancel.{cancel_job, cancel_found, is_owner, publish_cancelled}

-- The caller may cancel: without a user to check against, as an admin, or as the owner.
abbrev pub MayCancel : String → Bool → Job → Type 0
MayCancel user_id is_admin job =
    (truthy user_id ≡ false) ⊎ ((is_admin ≡ true) ⊎ (job.user_id ≡ some user_id))

abbrev pub IsLive : Job → Type 0
IsLive job = (job.status ≡ "pending") ⊎ (job.status ≡ "running")

abbrev pub as_cancelled : ℕ → Job → Job
as_cancelled now job = record job { status = "cancelled"; completed_at = some now }

cancel_live :
    (now : ℕ) (job : Job)
    → contains ("pending" ∷ "running" ∷ []) job.status ≡ true
    → Job.cancel now job ≡ ok (as_cancelled now job)
unfolding Job.cancel can_transition JobStatus.is_valid
cancel_live now job h = elim (Bool-cases ("pending" == job.status)) [
  | inl e ↦ simp (sym ((eq_iff "pending" job.status).0 e))
  | inr e ↦ simp (sym ((eq_iff "running" job.status).0 (ground arith)))
]

pub is_owner_iff :
    (user_id : String) (job : Job) → is_owner user_id job ≡ true → job.user_id ≡ some user_id
unfolding is_owner
is_owner_iff user_id job h = elim (Option-cases job.user_id) [
  | inl e ↦ absurd (ground arith)
  | inr (v, e) ↦ ground (arith, eq_iff v user_id)
]

may_cancel :
    (user_id : String) (is_admin : Bool) (job : Job)
    → not (truthy user_id && not is_admin && not (is_owner user_id job)) ≡ true
    → MayCancel user_id is_admin job
may_cancel user_id is_admin job h = elim (Bool-cases (is_owner user_id job)) [
  | inl e ↦ inr (inr (is_owner_iff user_id job e))
  | inr e ↦ ground arith
]

module _ (S : Service) (L : IsLawful S.repository) (T : TouchesOne S.repository) where
  open S use {repository.{find_by_id}}

  found_ok :
      (now : ℕ) (user_id : String) (is_admin : Bool) (job : Job) (w : World S) {d : JobDto}
      → (cancel_found S now user_id is_admin job w).0 ≡ ok d
      → IsLive job
        × MayCancel user_id is_admin job
        × ((i : String)
            → find_by_id i (cancel_found S now user_id is_admin job w).1.store
              ≡ (if job.id == i then ok (some (as_cancelled now job)) else find_by_id i w.store))
  unfolding cancel_found
  found_ok now user_id is_admin job w h =
      let p : not (truthy user_id && not is_admin && not (is_owner user_id job)) ≡ true =
        ground arith in
      let c : contains ("pending" ∷ "running" ∷ []) job.status ≡ true = ground arith in
      let e : Job.cancel now job ≡ ok (as_cancelled now job) = cancel_live now job c in
      (
        ground (arith, eq_iff "pending" job.status, eq_iff "running" job.status),
        may_cancel user_id is_admin job p,
        λ i.
            simp (p, c, e)
              (commit_ok S L T (as_cancelled now job)
                (λ j. publish_cancelled S j >> lift (map_to_dto S j)) w (λ x. publish-Keeps S L _ _)
                (simp (p, c, e) at h) i),
      )

  -- A cancellation that returns was made on a pending or running job, for nobody in particular, an
  -- admin or the job's owner. The job is then stored as cancelled at the time of the call, and every
  -- other job is as it was.
  pub cancel_job_ok :
      (now : ℕ) (job_id user_id : String) (is_admin : Bool) (w : World S) {d : JobDto}
      → IsIndexed S.repository w.store
      → (cancel_job S now job_id user_id is_admin w).0 ≡ ok d
      → (job : Job) × (find_by_id job_id w.store ≡ ok (some job))
        × IsLive job
        × MayCancel user_id is_admin job
        × ((i : String)
            → find_by_id i (cancel_job S now job_id user_id is_admin w).1.store
              ≡ (if job_id == i then ok (some (as_cancelled now job)) else find_by_id i w.store))
  unfolding cancel_job find
  cancel_job_ok now job_id user_id is_admin w x h =
      let t : truthy job_id ≡ true = ground arith in
      elim (Result-cases (find_by_id job_id w.store)) [
        | inr (e, p) ↦ cc (simp (t, p) at h)
        | inl (none, p) ↦ cc (simp (t, p) at h)
        | inl (some job, p) ↦
            let (live, may, stored) = found_ok now user_id is_admin job w (simp (t, p) at h) in
            (
              job,
              p,
              live,
              may,
              λ i.
                  simp (t, p)
                    (stored i
                      ∙ ap
                          (λ (k : String).
                            if k == i
                            then ok (some (as_cancelled now job))
                            else find_by_id i w.store)
                          (x job_id job p)),
            )
      ]

MayCancel-test :
    (user_id : String) (is_admin : Bool) (job : Job)
    → MayCancel user_id is_admin job
    → not (truthy user_id && not is_admin && not (is_owner user_id job)) ≡ true
unfolding is_owner
MayCancel-test user_id is_admin job (inl e) = simp e
MayCancel-test user_id is_admin job (inr (inl e)) = simp e (ground arith)
MayCancel-test user_id is_admin job (inr (inr e)) = ground (arith, ==_refl user_id)

IsLive-test : (job : Job) → contains ("pending" ∷ "running" ∷ []) job.status ≡ true → IsLive job
IsLive-test job h = ground (arith, eq_iff "pending" job.status, eq_iff "running" job.status)

-- A job that is stored is not cancelled for a user who is neither its owner nor an admin, and not
-- once it has ended: the first raises PermissionError, the second InvalidJobStatusError, and the
-- store and the published events are as they were.
pub cancel_job_refused :
    (S : Service) (now : ℕ) (job_id user_id : String) (is_admin : Bool) (w : World S) (job : Job)
    → truthy job_id ≡ true
    → S.repository.find_by_id job_id w.store ≡ ok (some job)
    → (¬ (MayCancel user_id is_admin job)
        → cancel_job S now job_id user_id is_admin w ≡ (err permission_error, w))
      × (MayCancel user_id is_admin job
          → ¬ (IsLive job)
          → cancel_job S now job_id user_id is_admin w ≡ (err invalid_job_status, w))
unfolding cancel_job find cancel_found
cancel_job_refused S now job_id user_id is_admin w job t p = (
  (λ no_right.
      elim (Bool-cases (not (truthy user_id && not is_admin && not (is_owner user_id job)))) [
        | inl e ↦ absurd (no_right (may_cancel user_id is_admin job e))
        | inr e ↦ simp (t, p, e)
      ]),
  λ right ended. elim (Bool-cases (contains ("pending" ∷ "running" ∷ []) job.status)) [
    | inl e ↦ absurd (ended (IsLive-test job e))
    | inr e ↦ simp (t, p, MayCancel-test user_id is_admin job right, e)
  ],
)

live_contains : (job : Job) → IsLive job → contains ("pending" ∷ "running" ∷ []) job.status ≡ true
live_contains job (inl e) = simp e
live_contains job (inr e) = simp e

-- the end of the use case, over a store that accepts every save
after_cancel :
    (S : Service) (j : Job) (w : World S)
    → ((k : Job) (s : S.repository.State) → (S.repository.save k s).0 ≡ ok k)
    → ((d : JobDto) → S.accepts d ≡ true)
    → ((assign S j >> (persist S j >>= (λ k. publish_cancelled S k >> lift (map_to_dto S k)))) w).0
      ≡ ok (dto_of S j)
unfolding assign persist publish_cancelled publish map_to_dto construct
after_cancel S j w saves accepts = rw (saves j (S.repository.touch j w.store), ◌>>=◌) (simp accepts)

-- A cancellation of a stored job that is pending or running, by somebody who may cancel it, returns
-- the DTO of the cancelled job, where every save succeeds and every DTO is accepted.
pub cancel_job_succeeds :
    (S : Service) (now : ℕ) (job_id user_id : String) (is_admin : Bool) (w : World S) (job : Job)
    → ((j : Job) (s : S.repository.State) → (S.repository.save j s).0 ≡ ok j)
    → ((d : JobDto) → S.accepts d ≡ true)
    → truthy job_id ≡ true
    → S.repository.find_by_id job_id w.store ≡ ok (some job)
    → IsLive job
    → MayCancel user_id is_admin job
    → (cancel_job S now job_id user_id is_admin w).0 ≡ ok (dto_of S (as_cancelled now job))
unfolding cancel_job find cancel_found
cancel_job_succeeds S now job_id user_id is_admin w job saves accepts t p live may =
    let m : not (truthy user_id && not is_admin && not (is_owner user_id job)) ≡ true =
      MayCancel-test user_id is_admin job may in
    let c : contains ("pending" ∷ "running" ∷ []) job.status ≡ true = live_contains job live in
    let e : Job.cancel now job ≡ ok (as_cancelled now job) = cancel_live now job c in
    simp (t, p) (simp (m, c, e) (after_cancel S (as_cancelled now job) w saves accepts))
