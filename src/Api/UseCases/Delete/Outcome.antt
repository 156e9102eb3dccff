-- ===== src/Api/UseCases/Delete/Outcome.antt =====
-- What a deletion does, and when it is refused.
use ai_microservices.Api.Effects.{◌>>=◌}
use ai_microservices.Base.{
  String, ◌≡◌, ◌⊎◌, inl, inr, Bool, true, false, ◌||◌, none, some, arith, if◌then◌else◌, Bool-cases,
  ◌==◌, nat_eq, string_eq, pair_eq,
}
use ai_microservices.Base.Text.{truthy}
use ai_microservices.Api.Result.{ok}
use ai_microservices.Api.Repository.{IsLawful}
use ai_microservices.Api.Job.{Job}
use ai_microservices.Api.UseCases.{Service, World, find, remove, publish}
use ai_microservices.Api.UseCases.Commit.{Result-cases}
use ai_microservices.Api.UseCases.Cancel.{is_owner}
use ai_microservices.Api.UseCases.Cancel.Outcome.{is_owner_iff}
use ai_microservices.Api.UseCases.Delete.{delete_job, delete_found}

module _ (S : Service) (L : IsLawful S.repository) where
  open S use {repository.{find_by_id, delete}}

  found_true :
      (job_id user_id : String) (is_admin : Bool) (job : Job) (w : World S)
      → (delete_found S job_id user_id is_admin job w).0 ≡ ok true
      → ((is_admin ≡ true) ⊎ (job.user_id ≡ some user_id))
        × ((i : String)
            → find_by_id i (delete_found S job_id user_id is_admin job w).1.store
              ≡ (if job_id == i then ok none else find_by_id i w.store))
  unfolding delete_found remove publish
  found_true job_id user_id is_admin job w h =
      elim (Bool-cases (is_admin || is_owner user_id job)) [
        | inr e ↦ cc (simp e at h)
        | inl e ↦ elim (Result-cases (delete job_id w.store).0) [
          | inr (x, p) ↦ cc (simp (e, p) at h)
          | inl (false, p) ↦ cc (simp (e, p) at h)
          | inl (true, p) ↦ (
            elim (Bool-cases is_admin) [
              | inl a ↦ inl a
              | inr a ↦ inr (is_owner_iff user_id job (ground arith))
            ],
            λ i. elim (Bool-cases S.has_publisher) [
              | inl b ↦ simp (e, b) (rw (p, ◌>>=◌) (L.find-delete job_id i true w.store p))
              | inr b ↦ simp (e, b) (rw (p, ◌>>=◌) (L.find-delete job_id i true w.store p))
            ],
          )
        ]
      ]

  -- A deletion that returns True was asked for by an admin or by the owner of a stored job. The job
  -- is gone then, and every other job is as it was.
  pub delete_job_gone :
      (job_id user_id : String) (is_admin : Bool) (w : World S)
      → (delete_job S job_id user_id is_admin w).0 ≡ ok true
      → (job : Job) × (find_by_id job_id w.store ≡ ok (some job))
        × ((is_admin ≡ true) ⊎ (job.user_id ≡ some user_id))
        × ((i : String)
            → find_by_id i (delete_job S job_id user_id is_admin w).1.store
              ≡ (if job_id == i then ok none else find_by_id i w.store))
  unfolding delete_job find
  delete_job_gone job_id user_id is_admin w h =
      let t : truthy job_id ≡ true = ground arith in
      let u : truthy user_id ≡ true = ground arith in
      elim (Result-cases (find_by_id job_id w.store)) [
        | inr (e, p) ↦ cc (simp (t, u, p) at h)
        | inl (none, p) ↦ cc (simp (t, u, p) at h)
        | inl (some job, p) ↦
            let (may, gone) = found_true job_id user_id is_admin job w (simp (t, u, p) at h) in
            (job, p, may, λ i. simp (t, u, p) (gone i))
      ]
