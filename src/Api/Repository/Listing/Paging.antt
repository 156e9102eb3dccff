-- ===== src/Api/Repository/Listing/Paging.antt =====
-- What a page of a listing holds.
use ai_microservices.Base.{
  String, ◌≡◌, inl, inr, Bool, true, Option, none, some, List, [], ◌∷◌, arith, eq_iff, Bool-cases,
  Option-cases, filter, All, All-map, ◌==◌, nat_eq, string_eq, pair_eq, ℕ, ◌+◌, ◌≤◌, ◌++◌, length,
  drop, length-take, All-take, All-drop, take-append-take, drop-drop,
}
use ai_microservices.Base.Dict.{Dict, values}
use ai_microservices.Base.Sort.{sort-All, length-sort, sort}
use ai_microservices.Api.Job.{Job}
use ai_microservices.Api.Repository.{Query, WantedOwner, Wanted, IsWanted}
use ai_microservices.Api.Repository.Listing.{
  find_all, matching, before, by_user, by_status, by_type, owned_by,
}

filter-All :
    {A : Type 0} (P Q : A → Type 0) (p : A → Bool) (xs : List A)
    → ((x : A) → p x ≡ true → P x → Q x)
    → All P xs
    → All Q (filter p xs)
filter-All P Q p [] k h = tt
filter-All P Q p (x ∷ xs) k h = elim (Bool-cases (p x)) [
  | inl e ↦ rw e (k x e h.0, filter-All P Q p xs k h.1)
  | inr e ↦ rw e (filter-All P Q p xs k h.1)
]

All-trivial : {A : Type 0} (xs : List A) → All (λ _. Unit {0}) xs
All-trivial [] = tt
All-trivial (x ∷ xs) = (tt, All-trivial xs)

owned_by_sound : (u : String) (j : Job) → owned_by u j ≡ true → j.user_id ≡ some u
owned_by_sound u j h = elim (Option-cases j.user_id) [
  | inl e ↦ absurd (ground arith)
  | inr (v, e) ↦ ground (arith, eq_iff v u)
]

by_user-All :
    (w : Option String) (jobs : List Job) → All (λ j. WantedOwner w j.user_id) (by_user w jobs)
unfolding by_user
by_user-All none jobs = All-trivial jobs
by_user-All (some u) jobs =
    filter-All (λ _. Unit {0}) _ (owned_by u) jobs (λ j e _. owned_by_sound u j e)
      (All-trivial jobs)

by_status-All :
    (w : Option String) (P : Job → Type 0) (jobs : List Job)
    → All P jobs
    → All (λ j. P j × Wanted w j.status) (by_status w jobs)
unfolding by_status
by_status-All none P jobs h = All-map (λ j p. (p, tt)) jobs h
by_status-All (some s) P jobs h =
    filter-All P _ (λ j. j.status == s) jobs (λ j e p. (p, (eq_iff j.status s).0 e)) h

by_type-All :
    (w : Option String) (P : Job → Type 0) (jobs : List Job)
    → All P jobs
    → All (λ j. P j × Wanted w j.job_type) (by_type w jobs)
unfolding by_type
by_type-All none P jobs h = All-map (λ j p. (p, tt)) jobs h
by_type-All (some s) P jobs h =
    filter-All P _ (λ j. j.job_type == s) jobs (λ j e p. (p, (eq_iff j.job_type s).0 e)) h

pub matching-IsWanted : (q : Query) (jobs : Dict String Job) → All (IsWanted q) (matching q jobs)
unfolding matching
matching-IsWanted q jobs =
    All-map (λ j p. (p.0.0, p.0.1, p.1)) _
      (by_type-All q.job_type _ _
        (by_status-All q.status _ _ (by_user-All q.user_id (values jobs))))

-- A page of a listing holds only jobs that the filters ask for, and no more than its limit; the
-- total counts every job that they ask for.
pub find_all_page :
    (q : Query) (jobs : Dict String Job)
    → All (IsWanted q) (find_all q jobs).0
      × (length (find_all q jobs).0 ≤ q.limit)
      × ((find_all q jobs).1 ≡ length (matching q jobs))
unfolding find_all
find_all_page q jobs = (
  All-take _ q.limit _ (
      All-drop _ q.offset _
        (sort-All (before q.sort_by q.sort_order) _ _ (matching-IsWanted q jobs))),
  omega (
    arith,
    length-take q.limit (drop q.offset (sort (before q.sort_by q.sort_order) (matching q jobs))),
  ),
  length-sort (before q.sort_by q.sort_order) (matching q jobs),
)

-- A page of `n` jobs and the page of `m` jobs behind it are the page of `n + m` jobs.
pub find_all_pages :
    (q : Query) (n m : ℕ) (jobs : Dict String Job)
    → (find_all (record q { limit = n }) jobs).0
        ++ (find_all (record q { limit = m; offset = q.offset + n }) jobs).0
      ≡ (find_all (record q { limit = n + m }) jobs).0
unfolding find_all matching
find_all_pages q n m jobs =
    let found = sort (before q.sort_by q.sort_order) (matching q jobs) in
    rw (← drop-drop n q.offset found) (take-append-take n m (drop q.offset found))
