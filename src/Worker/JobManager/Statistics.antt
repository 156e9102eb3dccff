-- ===== src/Worker/JobManager/Statistics.antt =====
-- `get_statistics` of services/ai_worker/src/infrastructure/jobs/job_manager.py. The mean of the times,
-- which is a float, is an argument.
use mathlib.Core.Path.{subst}
use ai_microservices.Base.Sort.{sort, length-sort}
use Prim.Native.Nat.{min}
use ai_microservices.Base.{
  ℕ, String, Option, none, some, List, filter, length, ◌≡◌, refl, ap, ◌∙◌, inl, inr, ◌&&◌, [], ◌∷◌,
  eq_iff, ltb, if◌then◌else◌, Bool-cases, length-take, nat_eq, string_eq, ◌==◌, pair_eq, contains,
  sym, ==_refl, arith,
}
use ai_microservices.Base.Dict.{Dict, lookup, values}
use ai_microservices.Worker.JobManager.{
  JobManager, Job, list_jobs, pending, running, completed, failed, cancelled, with_status, newer,
}

pub record Statistics : Type 0 where
  pub total_jobs : ℕ
  pub by_status : Dict String ℕ
  pub active_jobs : ℕ
  pub average : Option ℕ

abbrev statuses : List String
statuses = pending ∷ running ∷ completed ∷ failed ∷ cancelled ∷ []

abbrev pub count : String → List Job → ℕ
count status jobs = length (filter (λ j. j.status == status) jobs)

-- `for status in JobStatus`
abbrev counts : List String → List Job → Dict String ℕ
counts [] jobs = []
counts (s ∷ ss) jobs =
    let rest = counts ss jobs in if ltb 0 (count s jobs) then (s, count s jobs) ∷ rest else rest

-- the times of the jobs that have both
abbrev times : List Job → List (ℕ × ℕ)
times [] = []
times (j ∷ js) = elim j.started_at [
  | none ↦ times js
  | some s ↦ elim j.completed_at [ none ↦ times js | some t ↦ (s, t) ∷ times js ]
]

abbrev average_of : (List (ℕ × ℕ) → ℕ → ℕ) → List Job → Option ℕ
average_of mean [] = none
average_of mean (j ∷ js) = some (mean (times (j ∷ js)) (length (j ∷ js)))

-- `list_jobs` is called with its default limit, 100
unfoldable pub get_statistics : (List (ℕ × ℕ) → ℕ → ℕ) → JobManager → Statistics
get_statistics mean m = record {
  total_jobs = length (values m.jobs);
  by_status = counts statuses (values m.jobs);
  active_jobs = length (list_jobs (some running) 100 m);
  average = average_of mean (list_jobs (some completed) 100 m);
}

lookup-counts :
    (k : String) (ss : List String) (jobs : List Job)
    → lookup k (counts ss jobs)
      ≡ (if contains ss k && ltb 0 (count k jobs) then some (count k jobs) else none)
lookup-counts k [] jobs = refl
lookup-counts k (s ∷ ss) jobs = elim (Bool-cases (s == k)) [
  | inl e ↦
      let same : s ≡ k = (eq_iff s k).0 e in
      subst
        (λ u.
          lookup k (counts (u ∷ ss) jobs)
          ≡ (if contains (u ∷ ss) k && ltb 0 (count k jobs) then some (count k jobs) else none))
        (sym same)
        (elim (Bool-cases (ltb 0 (count k jobs))) [
          | inl p ↦ simp (p, ==_refl)
          | inr p ↦ simp (p, ==_refl, lookup-counts k ss jobs) (ground arith)
        ])
  | inr e ↦ elim (Bool-cases (ltb 0 (count s jobs))) [
    | inl p ↦ simp (p, e, lookup-counts k ss jobs)
    | inr p ↦ simp (p, e, lookup-counts k ss jobs)
  ]
]

-- The statistics count every job of a status under that status, and leave out a status without jobs;
-- but at most 100 of the running jobs count as active.
pub get_statistics_counts :
    (mean : List (ℕ × ℕ) → ℕ → ℕ) (m : JobManager) (status : String)
    → (lookup status (get_statistics mean m).by_status ≡ (
        if contains statuses status && ltb 0 (count status (values m.jobs))
        then some (count status (values m.jobs))
        else none))
      × ((get_statistics mean m).active_jobs ≡ min 100 (count running (values m.jobs)))
unfolding get_statistics list_jobs
get_statistics_counts mean m status = (
  lookup-counts status statuses (values m.jobs),
  length-take 100 (sort newer (with_status (some running) (values m.jobs)))
      ∙ ap (λ n. min 100 n) (length-sort newer (with_status (some running) (values m.jobs))),
)
