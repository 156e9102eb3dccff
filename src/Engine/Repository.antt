-- ===== src/Engine/Repository.antt =====
-- ai_engine/domain/repositories.py: the contract of the two repositories of jobs. The coroutines of
-- the asynchronous one promise what the methods of the synchronous one do.
pub mod Mongo
use ai_microservices.Base.{
  String, Option, none, some, List, ◌≡◌, if◌then◌else◌, ◌==◌, string_eq, ℕ, nat_eq, pair_eq, ◌⊎◌,
}
use ai_microservices.Api.Status.Diagram.{Status}
use ai_microservices.Engine.Job.{Exception, value_error, Attempt, raised, done, AiJob}

-- `list_by_status` has the status, the limit and the offset; a limit of none is no limit.
pub record AiJobRepository : Type 1 where
  pub State : Type 0
  pub save : AiJob → State → Attempt (Unit {0}) × State
  pub get_by_id : String → State → Attempt (Option AiJob)
  pub list_by_status : Status → Option ℕ → ℕ → State → Attempt (List AiJob)
  pub update : AiJob → State → Attempt (Unit {0}) × State

module _ (R : AiJobRepository) where
  open R use {State, save, get_by_id, update}

  -- What the docstrings promise of save, get_by_id and update, where the database answers.
  pub record IsLawful : Type 0 where
    pub save_new :
        (j : AiJob) (s : State) → get_by_id j.job_id s ≡ done none → (save j s).0 ≡ done tt
    pub save_duplicate :
        (j k : AiJob) (s : State)
        → get_by_id j.job_id s ≡ done (some k)
        → (e : String) × (save j s ≡ (raised (value_error e), s))
    pub get-save :
        (j : AiJob) (i : String) (s : State)
        → (save j s).0 ≡ done tt
        → get_by_id i (save j s).1 ≡ (if j.job_id == i then done (some j) else get_by_id i s)
    pub update_found :
        (j k : AiJob) (s : State) → get_by_id j.job_id s ≡ done (some k) → (update j s).0 ≡ done tt
    pub update_missing :
        (j : AiJob) (s : State)
        → get_by_id j.job_id s ≡ done none
        → (e : String) × (update j s ≡ (raised (value_error e), s))
    pub get-update :
        (j : AiJob) (i : String) (s : State)
        → (update j s).0 ≡ done tt
        → get_by_id i (update j s).1 ≡ (if j.job_id == i then done (some j) else get_by_id i s)

  module _ (kept : AiJob → AiJob) (fails : Exception → Type 0) where
    -- A call that the database fails, and one that the repository refuses, change nothing.
    abbrev pub Failed : State → Attempt (Unit {0}) × State → Type 0
    Failed s r = (e : Exception) × (fails e) × (r ≡ (raised e, s))

    abbrev pub Refused : State → Attempt (Unit {0}) × State → Type 0
    Refused s r = (message : String) × (r ≡ (raised (value_error message), s))

    -- The same of a repository that keeps a job as `kept` says, over a database whose writes may fail.
    pub record IsLawfulUpTo : Type 0 where
      pub save_new :
          (j : AiJob) (s : State)
          → get_by_id j.job_id s ≡ done none
          → ((save j s).0 ≡ done tt) ⊎ Failed s (save j s)
      pub save_duplicate :
          (j k : AiJob) (s : State)
          → get_by_id j.job_id s ≡ done (some k)
          → Refused s (save j s) ⊎ Failed s (save j s)
      pub get-save :
          (j : AiJob) (i : String) (s : State)
          → (save j s).0 ≡ done tt
          → get_by_id i (save j s).1
            ≡ (if j.job_id == i then done (some (kept j)) else get_by_id i s)
      pub update_found :
          (j k : AiJob) (s : State)
          → get_by_id j.job_id s ≡ done (some k)
          → ((update j s).0 ≡ done tt) ⊎ Failed s (update j s)
      pub update_missing :
          (j : AiJob) (s : State)
          → get_by_id j.job_id s ≡ done none
          → Refused s (update j s) ⊎ Failed s (update j s)
      pub get-update :
          (j : AiJob) (i : String) (s : State)
          → (update j s).0 ≡ done tt
          → get_by_id i (update j s).1
            ≡ (if j.job_id == i then done (some (kept j)) else get_by_id i s)
