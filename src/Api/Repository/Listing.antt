-- ===== src/Api/Repository/Listing.antt =====
-- `_InMemoryJobRepository.find_all` of services/api_service/src/presentation/app.py.
pub mod Paging
pub mod Complete
use ai_microservices.Base.{
  ℕ, String, Bool, true, false, Option, none, some, List, filter, length, take, drop, ltb, ◌==◌,
  string_eq, ◌≡◌, arith, nat_eq, pair_eq,
}
use ai_microservices.Base.Dict.{Dict, values}
use ai_microservices.Base.Int.{ltb_ℤ}
use ai_microservices.Base.Text.{text_ltb, text_ltb_asym}
use ai_microservices.Base.Sort.{sort}
use ai_microservices.Api.Job.{Job}
use ai_microservices.Api.Repository.{
  Query, SortField, SortOrder, created_at, status, priority, asc, desc,
}

-- `job.user_id == user_id`
abbrev owned_by : String → Job → Bool
owned_by u j = elim j.user_id [ none ↦ false | some v ↦ v == u ]

unfoldable pub by_user : Option String → List Job → List Job
by_user none jobs = jobs
by_user (some u) jobs = filter (owned_by u) jobs

unfoldable pub by_status : Option String → List Job → List Job
by_status none jobs = jobs
by_status (some s) jobs = filter (λ j. j.status == s) jobs

unfoldable pub by_type : Option String → List Job → List Job
by_type none jobs = jobs
by_type (some t) jobs = filter (λ j. j.job_type == t) jobs

-- the order of the keys that `getattr(job, sort_by)` gives
unfoldable pub key_lt : SortField → Job → Job → Bool
key_lt created_at a b = ltb a.created_at b.created_at
key_lt status a b = text_ltb a.status b.status
key_lt priority a b = ltb_ℤ a.priority b.priority

-- the order that `sort` follows, `reverse=True` for "desc"
unfoldable pub before : SortField → SortOrder → Job → Job → Bool
unfolding key_lt
before field asc a b = key_lt field a b
before field desc a b = key_lt field b a

unfoldable pub matching : Query → Dict String Job → List Job
unfolding by_user by_status by_type
matching q jobs = by_type q.job_type (by_status q.status (by_user q.user_id (values jobs)))

unfoldable pub find_all : Query → Dict String Job → List Job × ℕ
unfolding matching before sort
find_all q jobs =
    let found = sort (before q.sort_by q.sort_order) (matching q jobs) in
    (take q.limit (drop q.offset found), length found)

pub before_asym :
    (f : SortField) (o : SortOrder) (a b : Job) → before f o a b ≡ true → before f o b a ≡ false
unfolding before
before_asym created_at asc a b h = ground arith
before_asym created_at desc a b h = ground arith
before_asym status asc a b h = text_ltb_asym a.status b.status h
before_asym status desc a b h = text_ltb_asym b.status a.status h
before_asym priority asc a b h = ground arith
before_asym priority desc a b h = ground arith
