-- ===== src/Engine/Examples.antt =====
-- The theorems of the AI engine over a repository in memory, with dates written in unary.
mod Stored
mod Documents
mod Runs
mod Summaries
mod Sentiments
mod Requests
use mathlib.Core.Option.{some-injective}
use Prim.Native.Char.{nul}
use ai_microservices.Base.{
  ℕ, zero, suc, String, Bool, true, false, Option, none, some, List, [], ◌∷◌, ◌≡◌, refl, ap,
  if◌then◌else◌, string_eq, filter, drop, arith, eq_iff, nat_eq, ◌==◌, pair_eq, ==_refl, sym, ◌∙◌,
  inl, inr, Option-cases, not, take,
}
use ai_microservices.Base.Dict.{Dict, lookup, insert, has_key, values, lookup-insert}
use ai_microservices.Base.Value.{Value, Fields, end, field, text, get}
use ai_microservices.Api.Status.Diagram.{name}
use ai_microservices.Engine.Repository.{AiJobRepository, IsLawful}
use ai_microservices.Engine.Job.{
  value_error, Attempt, done, raised, JobType, JobResult, AiJob, new_job,
}
use ai_microservices.Engine.Job.Serial.{Iso, IsInverse}
use ai_microservices.Engine.Repository.Mongo.{Collection, IsCollection}
use ai_microservices.Engine.Orchestrator.{Task, Clock}

abbrev unary : ℕ → String
unary zero = String.[]
unary (suc n) = String.◌∷◌ nul (unary n)

abbrev tally : String → ℕ
tally String.[] = zero
tally (String.◌∷◌ c s) = suc (tally s)

abbrev pub iso : Iso
iso = record { isoformat = unary; fromisoformat = λ s. some (tally s) }

tally-unary : (n : ℕ) → tally (unary n) ≡ n
tally-unary zero = refl
tally-unary (suc n) = ap suc (tally-unary n)

pub iso-IsInverse : IsInverse iso
iso-IsInverse t = ap (λ n. some n) (tally-unary t)

-- a repository in memory
abbrev pub Jobs : Type 0
Jobs = Dict String AiJob

abbrev at_most : {A : Type 0} → Option ℕ → List A → List A
at_most none xs = xs
at_most (some n) xs = take n xs

abbrev save : AiJob → Jobs → Attempt (Unit {0}) × Jobs
save j s =
    if has_key j.job_id s
    then (raised (value_error "already exists"), s)
    else (done tt, insert j.job_id j s)

abbrev update : AiJob → Jobs → Attempt (Unit {0}) × Jobs
update j s =
    if has_key j.job_id s
    then (done tt, insert j.job_id j s)
    else (raised (value_error "not found"), s)

abbrev pub memory : AiJobRepository
memory = record {
  State = Jobs;
  save = save;
  get_by_id = λ i s. done (lookup i s);
  list_by_status = λ status limit offset s.
      done (at_most limit (drop offset (filter (λ j. name j.status == name status) (values s))));
  update = update;
}

pub memory-IsLawful : IsLawful memory
memory-IsLawful = record {
  save_new = λ j s h. ground arith;
  save_duplicate = λ j k s h. ("already exists", ground arith);
  get-save = λ j i s h. ground (arith, lookup-insert j.job_id i j s);
  update_found = λ j k s h. ground arith;
  update_missing = λ j s h. ("not found", ground arith);
  get-update = λ j i s h. ground (arith, lookup-insert j.job_id i j s);
}

abbrev pub submitted : AiJob
submitted = new_job "j1" 3 4 JobType.summarization end end

abbrev pub summary : JobResult
summary = record { success = true; output = end; error = none; metadata = end }

abbrev pub task : Task
task = record { validate_payload = λ p. done tt; execute = λ p. done summary }

abbrev pub registry : JobType → Option Task
registry JobType.summarization = some task
registry _ = none

abbrev pub clock : Clock
clock = record { started = 5; finished = 6; restarted = 7; given_up = 8 }
