-- ===== src/Api/Http/Jobs/Scope.antt =====
-- Whose jobs a listing shows.
use ai_microservices.Base.{
  ℕ, String, ◌≡◌, refl, inl, inr, false, not, ◌||◌, some, List, [], ◌∷◌, Bool-cases, Option-cases,
  All, ◌∙◌,
}
use ai_microservices.Base.Int.{ltb_ℤ, pos}
use ai_microservices.Api.Result.{Result, ok, err, Error}
use ai_microservices.Api.Job.{Job}
use ai_microservices.Api.Repository.{JobRepository, Query}
use ai_microservices.Api.Repository.{IsWanted}
use ai_microservices.Api.UseCases.{Service, World, JobDto, map_to_dto, construct, dto_of}
use ai_microservices.Api.Job.Lifecycle.{Ensures, ensured}
use ai_microservices.Api.UseCases.Commit.{Result-cases}
use ai_microservices.Api.UseCases.Read as Read
use ai_microservices.Api.UseCases.Read.{ListArgs, all_dtos, sort_field, sort_direction, query_of}
use ai_microservices.Api.Http.{one, Caller, caller_id, is_admin, Response, respond, page}
use ai_microservices.Api.Http.Jobs.{list_jobs, is_foreign, answer, failure}

-- A page holds only jobs that the filters of the query ask for.
abbrev pub IsFiltering : JobRepository → Type 0
IsFiltering R =
    (q : Query) (s : R.State) (jobs : List Job) (total : ℕ)
    → R.find_all q s ≡ ok (jobs, total)
    → All (IsWanted q) jobs

abbrev pub IsOf : String → JobDto → Type 0
IsOf u d = d.user_id ≡ some u

dto_owner : (S : Service) (job : Job) → Ensures (λ d. d.user_id ≡ job.user_id) (map_to_dto S job)
unfolding map_to_dto construct dto_of
dto_owner S job = elim (Bool-cases (S.accepts (dto_of S job))) [
  | inl e ↦ simp e refl
  | inr e ↦ simp e tt
]

all_dtos-IsOf :
    (S : Service) (u : String) (q : Query) (jobs : List Job)
    → q.user_id ≡ some u
    → All (IsWanted q) jobs
    → Ensures (All (IsOf u)) (all_dtos S jobs)
unfolding all_dtos
all_dtos-IsOf S u q [] e h = tt
all_dtos-IsOf S u q (job ∷ jobs) e h = elim (Result-cases (map_to_dto S job)) [
  | inr (x, p) ↦ simp (p, all_dtos) tt
  | inl (d, p) ↦
      let own : d.user_id ≡ job.user_id = ensured _ (map_to_dto S job) p (dto_owner S job) in
      let rest = all_dtos-IsOf S u q jobs e h.1 in
      elim (Result-cases (all_dtos S jobs)) [
        | inr (x, r) ↦ simp (p, r, all_dtos) tt
        | inl (ds, r) ↦
            simp (p, r, all_dtos) (own ∙ (rw e at (h.0.0)), ensured _ (all_dtos S jobs) r rest)
      ]
]

-- a listing for one user
listed-IsOf :
    (S : Service) (u : String) (a : ListArgs) (w : World S)
    → IsFiltering S.repository
    → Ensures (λ p. All (IsOf u) p.0) (Read.list_jobs S (record a { user_id = some u }) w).0
unfolding Read.list_jobs
listed-IsOf S u a w filters =
    elim (Bool-cases (not (ltb_ℤ a.limit (pos 1) || ltb_ℤ (pos 100) a.limit))) [
      | inr e ↦ simp e tt
      | inl e ↦ elim (Bool-cases (not (ltb_ℤ a.offset (pos 0)))) [
        | inr f ↦ simp (e, f) tt
        | inl f ↦ elim (Option-cases (sort_field a.sort_by)) [
          | inl n ↦ simp (e, f, n) tt
          | inr (field, g) ↦ elim (Option-cases (sort_direction a.sort_order)) [
            | inl n ↦ simp (e, f, g, n) tt
            | inr (direction, d) ↦
                let q : Query = query_of (record a { user_id = some u }) field direction in
                elim (Result-cases (S.repository.find_all q w.store)) [
                  | inr (x, p) ↦ simp (e, f, g, d, p) tt
                  | inl ((jobs, total), p) ↦
                      let own = all_dtos-IsOf S u q jobs refl (filters q w.store jobs total p) in
                      elim (Result-cases (all_dtos S jobs)) [
                        | inr (x, r) ↦ simp (e, f, g, d, p, r) tt
                        | inl (ds, r) ↦ simp (e, f, g, d, p, r) (ensured _ (all_dtos S jobs) r own)
                      ]
                ]
          ]
        ]
      ]
    ]

-- The jobs that a response shows belong to the user.
abbrev pub ShowsOnly : String → Response → Type 0
ShowsOnly u (respond code (one d)) = IsOf u d
ShowsOnly u (respond code (page ds total limit offset)) = All (IsOf u) ds
ShowsOnly u _ = Unit

ShowsOnly-failure : (u : String) (e : Error) → ShowsOnly u (failure e)
ShowsOnly-failure u Error.value_error = tt
ShowsOnly-failure u _ = tt

ShowsOnly-answer :
    (u : String) (a : ListArgs) (r : Result (List JobDto × ℕ))
    → Ensures (λ p. All (IsOf u) p.0) r
    → ShowsOnly u (answer (λ p. respond 200 (page p.0 p.1 a.limit a.offset)) failure r)
ShowsOnly-answer u a (ok p) h = h
ShowsOnly-answer u a (err e) h = ShowsOnly-failure u e

-- A listing for a caller who is no admin shows jobs of that caller only, over a repository whose
-- pages keep to their filters, and whatever user the query names.
pub list_jobs_own :
    (S : Service) (c : Caller) (a : ListArgs) (w : World S)
    → IsFiltering S.repository
    → is_admin c ≡ false
    → ShowsOnly (caller_id c) (list_jobs S c a w).0
unfolding list_jobs
list_jobs_own S c a w filters plain = elim (Bool-cases (is_foreign c a.user_id)) [
  | inl e ↦ simp (plain, e) tt
  | inr e ↦
      simp (plain, e) (ShowsOnly-answer (caller_id c) a _ (listed-IsOf S (caller_id c) a w filters))
]
