-- ===== src/Worker/JobManager/Cleanup.antt =====
-- What a cleanup of the job manager removes, and what it keeps.
use ai_microservices.Base.{
  ℕ, String, ◌≡◌, refl, ap, sym, ◌∙◌, inl, inr, Bool, false, Option, none, some, List, [], ◌∷◌,
  Bool-cases, if◌then◌else◌, ◌==◌, nat_eq, string_eq, pair_eq, contains, eq_iff,
}
use ai_microservices.Base.Dict.{Dict, lookup, erase, lookup-erase}
use ai_microservices.Worker.JobManager.{
  Job, JobManager, get_job, is_stale, stale_ids, delete_all, cleanup_old_jobs,
}

-- A key stands at most once, as in any `dict`.
abbrev pub HasUniqueKeys : Dict String Job → Type 0
HasUniqueKeys [] = Unit
HasUniqueKeys ((job_id, job) ∷ jobs) = (lookup job_id jobs ≡ none) × HasUniqueKeys jobs

-- a job that is there and is stale
abbrev pub stale_at : ℕ → ℕ → Option Job → Bool
stale_at now days none = false
stale_at now days (some job) = is_stale now days job

lookup-delete_all :
    (ids : List String) (k : String) (jobs : Dict String Job)
    → lookup k (delete_all ids jobs) ≡ (if contains ids k then none else lookup k jobs)
unfolding delete_all
lookup-delete_all [] k jobs = refl
lookup-delete_all (i ∷ ids) k jobs =
    let rest = lookup-delete_all ids k (erase i jobs) in
    elim (Bool-cases (i == k)) [
      | inl e ↦ elim (Bool-cases (contains ids k)) [
        | inl c ↦ simp (rest, e, c)
        | inr c ↦ simp (rest, e, c, lookup-erase)
      ]
      | inr e ↦ simp (rest, e, lookup-erase)
    ]

contains-stale_ids :
    (now days : ℕ) (k : String) (jobs : Dict String Job)
    → HasUniqueKeys jobs
    → contains (stale_ids now days jobs) k ≡ stale_at now days (lookup k jobs)
unfolding stale_ids
contains-stale_ids now days k [] u = refl
contains-stale_ids now days k ((i, job) ∷ jobs) u =
    let rest = contains-stale_ids now days k jobs u.1 in
    elim (Bool-cases (i == k)) [
      | inl e ↦
          let gone : lookup k jobs ≡ none =
            sym (ap (λ x. lookup x jobs) ((eq_iff i k).0 e)) ∙ u.0 in
          elim (Bool-cases (is_stale now days job)) [
            | inl s ↦ simp (e, s)
            | inr s ↦ simp (e, s, rest, gone)
          ]
      | inr e ↦ elim (Bool-cases (is_stale now days job)) [
        | inl s ↦ simp (e, s, rest)
        | inr s ↦ simp (e, s, rest)
      ]
    ]

-- A cleanup of a table with unique keys removes exactly the jobs that have ended and whose time of
-- completion is further back than the days of retention: every other job is found as before.
pub cleanup_exact :
    (now days : ℕ) (k : String) (m : JobManager)
    → HasUniqueKeys m.jobs
    → get_job k (cleanup_old_jobs now days m).1
      ≡ (if stale_at now days (get_job k m) then none else get_job k m)
unfolding get_job cleanup_old_jobs
cleanup_exact now days k m u =
    rw (← contains-stale_ids now days k m.jobs u)
      (lookup-delete_all (stale_ids now days m.jobs) k m.jobs)
