-- ===== src/Api/Repository.antt =====
-- services/api_service/src/domain/repositories/job_repository.py: the contract of a job repository.
pub mod Listing
pub mod InMemory
use Prim.Native.Nat.{ℕ}
use ai_microservices.Base.{
  String, Bool, Option, none, some, List, ◌≡◌, string_eq, ◌==◌, is_some, if◌then◌else◌, nat_eq,
  pair_eq, ◌≢◌, ◌≤◌, length, All,
}
use ai_microservices.Api.Result.{Error, Result, ok, err, repository_error}
use ai_microservices.Api.Job.{Job}

-- the fields that a listing may be sorted by
pub data SortField : Type 0 where
  created_at status priority : SortField

pub data SortOrder : Type 0 where
  asc desc : SortOrder

-- the arguments of `find_all`
pub record Query : Type 0 where
  pub user_id : Option String
  pub status : Option String
  pub job_type : Option String
  pub limit : ℕ
  pub offset : ℕ
  pub sort_by : SortField
  pub sort_order : SortOrder

-- A wanted text, if there is one, is the field's.
abbrev pub Wanted : Option String → String → Type 0
Wanted none t = Unit
Wanted (some s) t = t ≡ s

abbrev pub WantedOwner : Option String → Option String → Type 0
WantedOwner none u = Unit
WantedOwner (some s) u = u ≡ some s

-- The job is one that the filters of the query ask for.
abbrev pub IsWanted : Query → Job → Type 0
IsWanted q j =
    WantedOwner q.user_id j.user_id × Wanted q.status j.status × Wanted q.job_type j.job_type

-- `touch` is what the store holds once the caller has assigned to the fields of a job that
-- `find_by_id` handed out: nothing changes where that was a copy.
pub record JobRepository : Type 1 where
  pub State : Type 0
  pub save : Job → State → Result Job × State
  pub find_by_id : String → State → Result (Option Job)
  pub find_all : Query → State → Result (List Job × ℕ)
  pub find_by_status : String → ℕ → ℕ → State → Result (List Job × ℕ)
  pub find_by_user : String → ℕ → ℕ → State → Result (List Job × ℕ)
  pub update_status : String → String → State → Result (Option Job) × State
  pub delete : String → State → Result Bool × State
  pub exists : String → State → Result Bool
  pub count : Option String → Option String → State → Result ℕ
  pub touch : Job → State → State

module _ (R : JobRepository) where
  open R use {
    State, save, find_by_id, delete, find_all, find_by_status, find_by_user, update_status, exists,
    count,
  }

  -- What the docstrings promise of save, find_by_id and delete, which the use cases that write rely on.
  pub record IsLawful : Type 0 where
    pub save_returns : (j k : Job) (s : State) → (save j s).0 ≡ ok k → k ≡ j
    pub find-save :
        (j k : Job) (i : String) (s : State)
        → (save j s).0 ≡ ok k
        → find_by_id i (save j s).1 ≡ (if j.id == i then ok (some j) else find_by_id i s)
    pub save_error :
        (j : Job) (e : Error) (s : State)
        → (save j s).0 ≡ err e
        → (e ≡ repository_error) × ((save j s).1 ≡ s)
    pub find_error :
        (i : String) (e : Error) (s : State) → find_by_id i s ≡ err e → e ≡ repository_error
    pub delete_returns :
        (i : String) (b : Bool) (o : Option Job) (s : State)
        → find_by_id i s ≡ ok o
        → (delete i s).0 ≡ ok b
        → b ≡ is_some o
    pub find-delete :
        (i k : String) (b : Bool) (s : State)
        → (delete i s).0 ≡ ok b
        → find_by_id k (delete i s).1 ≡ (if i == k then ok none else find_by_id k s)
    pub delete_error :
        (i : String) (e : Error) (s : State)
        → (delete i s).0 ≡ err e
        → (e ≡ repository_error) × ((delete i s).1 ≡ s)

  -- What the docstrings promise of the other six methods: the pages keep to their filters and limits,
  -- a status is updated in the stored job alone, and the two questions agree with the searches.
  pub record IsSearchable : Type 0 where
    pub find_all_page :
        (q : Query) (page : List Job) (total : ℕ) (s : State)
        → find_all q s ≡ ok (page, total)
        → All (IsWanted q) page × (length page ≤ q.limit) × (length page ≤ total)
    pub find_by_status_page :
        (status : String) (limit offset : ℕ) (page : List Job) (total : ℕ) (s : State)
        → find_by_status status limit offset s ≡ ok (page, total)
        → All (λ j. j.status ≡ status) page × (length page ≤ limit) × (length page ≤ total)
    pub find_by_user_page :
        (user_id : String) (limit offset : ℕ) (page : List Job) (total : ℕ) (s : State)
        → find_by_user user_id limit offset s ≡ ok (page, total)
        → All (λ j. j.user_id ≡ some user_id) page × (length page ≤ limit) × (length page ≤ total)
    pub update_status_found :
        (i k status : String) (j : Job) (s : State)
        → find_by_id i s ≡ ok (some j)
        → j.id ≡ i
        → ((update_status i status s).0 ≡ ok (some (record j { status = status })))
          × (find_by_id k (update_status i status s).1
              ≡ (if i == k then ok (some (record j { status = status })) else find_by_id k s))
    pub update_status_missing :
        (i status : String) (s : State)
        → find_by_id i s ≡ ok none
        → update_status i status s ≡ (ok none, s)
    pub exists-find :
        (i : String) (o : Option Job) (s : State)
        → find_by_id i s ≡ ok o
        → exists i s ≡ ok (is_some o)
    pub count_total :
        (q : Query) (page : List Job) (total : ℕ) (s : State)
        → q.job_type ≡ none
        → find_all q s ≡ ok (page, total)
        → count q.user_id q.status s ≡ ok total

-- Assignments to the fields of one job leave the others alone.
abbrev pub TouchesOne : JobRepository → Type 0
TouchesOne R =
    (j : Job) (i : String) (s : R.State)
    → j.id ≢ i
    → R.find_by_id i (R.touch j s) ≡ R.find_by_id i s

-- A repository that hands out copies, as one over a database does.
abbrev pub IsDetached : JobRepository → Type 0
IsDetached R = (j : Job) (s : R.State) → R.touch j s ≡ s

-- A repository that hands out the stored object, so that assignments to its fields are seen at once.
abbrev pub IsShared : JobRepository → Type 0
IsShared R =
    (j k : Job) (s : R.State)
    → R.find_by_id j.id s ≡ ok (some k)
    → R.find_by_id j.id (R.touch j s) ≡ ok (some j)

-- Every job is stored under its own identifier.
abbrev pub IsIndexed : (R : JobRepository) → R.State → Type 0
IsIndexed R s = (i : String) (j : Job) → R.find_by_id i s ≡ ok (some j) → j.id ≡ i
