-- ===== src/Api/Repository/Listing/Complete.antt =====
-- What `find_all` lists and what it leaves out, as a partition of the stored jobs.
use mathlib.Core.List.{Perm}
use mathlib.Core.List.Perm
use ai_microservices.Base.{Bool, not, List, ◌++◌, filter, All, string_eq, nat_eq, pair_eq}
use ai_microservices.Base.Dict.{Dict}
use ai_microservices.Api.Job.{Job}

module _ {A : Type 0} (p : A → Bool) where
  abbrev dropped : List A → List A
  dropped = filter (λ x. not (p x))

-- `kept` with some jobs that are not wanted is `jobs`
abbrev pub Splits : (Job → Type 0) → List Job → List Job → Type 0
Splits P jobs kept = (rest : List Job) × (Perm jobs (kept ++ rest)) × All (λ j. ¬ P j) rest
