-- ===== src/Api/Http/Jobs/Access.antt =====
-- What the handlers answer about a job of somebody else, and about a job that is not stored.
use ai_microservices.Base.{
  ℕ, String, ◌≡◌, inl, inr, true, false, Option, none, some, string_eq, Option-cases, arith, eq_iff,
  refl, Bool-cases,
}
use ai_microservices.Base.Int.{ℤ}
use ai_microservices.Base.Text.{truthy}
use ai_microservices.Api.Result.{ok}
use ai_microservices.Api.Job.{Job}
use ai_microservices.Api.UseCases.{Service, World, find, map_to_dto, construct, dto_of}
use ai_microservices.Api.UseCases.Read as Read
use ai_microservices.Api.UseCases.Cancel as Cancel
use ai_microservices.Api.UseCases.Cancel.{is_owner, cancel_found}
use ai_microservices.Api.UseCases.Delete as Delete
use ai_microservices.Api.UseCases.Delete.{delete_found}
use ai_microservices.Api.Http.{
  Caller, caller_id, is_admin, respond, forbidden, failed, or_anonymous,
}
use ai_microservices.Api.Http.Jobs.{
  may_access, get_job, poll_job_status, update_job, delete_job, cancel_job,
}

truthy-or_anonymous : (u : Option String) → truthy (or_anonymous u) ≡ true
truthy-or_anonymous none = refl
truthy-or_anonymous (some u) = elim (Bool-cases (truthy u)) [ inl t ↦ simp t | inr t ↦ simp t ]

pub truthy-caller_id : (c : Caller) → truthy (caller_id c) ≡ true
unfolding caller_id
truthy-caller_id c = truthy-or_anonymous c.user_id

no_admin : (c : Caller) (u : Option String) → may_access c u ≡ false → is_admin c ≡ false
unfolding may_access
no_admin c u h = ground arith

no_owner :
    (c : Caller) (job : Job) → may_access c job.user_id ≡ false → is_owner (caller_id c) job ≡ false
unfolding may_access is_owner
no_owner c job h = elim (Option-cases job.user_id) [
  | inl e ↦ ground arith
  | inr (u, e) ↦ ground (arith, eq_iff u (caller_id c), eq_iff (caller_id c) u)
]

module _ (S : Service) (c : Caller) (now : ℕ) (job_id : String) (p : Option ℤ) (w : World S)
    (named : truthy job_id ≡ true) where
  open S use {repository.{find_by_id}, accepts}

  -- A stored job of somebody else, for a caller who is no admin, where the DTO of the job is accepted:
  -- get, poll, update, delete and cancel all raise ForbiddenError, and neither the store nor what was
  -- published or dispatched changes.
  pub foreign_job_forbidden :
      (job : Job)
      → find_by_id job_id w.store ≡ ok (some job)
      → accepts (dto_of S job) ≡ true
      → may_access c job.user_id ≡ false
      → (get_job S c job_id w ≡ (forbidden, w))
        × (poll_job_status S c job_id w ≡ (forbidden, w))
        × (update_job S c job_id p w ≡ (forbidden, w))
        × (delete_job S c job_id w ≡ (forbidden, w))
        × (cancel_job S c now job_id w ≡ (forbidden, w))
  unfolding get_job poll_job_status update_job delete_job cancel_job Read.get_job Cancel.cancel_job
      cancel_found Delete.delete_job delete_found find map_to_dto construct
  foreign_job_forbidden job found shown other =
      let a : is_admin c ≡ false = no_admin c job.user_id other in
      let o : is_owner (caller_id c) job ≡ false = no_owner c job other in
      let t : truthy (caller_id c) ≡ true = truthy-caller_id c in
      (
        simp (named, found, shown, other),
        simp (named, found, shown, other),
        simp (named, found, shown, other),
        simp (named, t, found, a, o),
        simp (named, found, t, a, o),
      )

  -- A job that is not stored: get, poll, update, delete and cancel answer 404, whoever asks, and
  -- nothing changes.
  pub missing_job_404 :
      find_by_id job_id w.store ≡ ok none
      → (get_job S c job_id w ≡ (respond 404 failed, w))
        × (poll_job_status S c job_id w ≡ (respond 404 failed, w))
        × (update_job S c job_id p w ≡ (respond 404 failed, w))
        × (delete_job S c job_id w ≡ (respond 404 failed, w))
        × (cancel_job S c now job_id w ≡ (respond 404 failed, w))
  unfolding get_job poll_job_status update_job delete_job cancel_job Read.get_job Cancel.cancel_job
      Delete.delete_job find
  missing_job_404 found =
      let t : truthy (caller_id c) ≡ true = truthy-caller_id c in
      (
        simp (named, found),
        simp (named, found),
        simp (named, found),
        simp (named, t, found),
        simp (named, found),
      )
