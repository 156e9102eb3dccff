-- ===== src/Engine/Repository/Mongo/Refines.antt =====
-- The MongoDB repository of ai_engine/infrastructure/persistence/mongo_repository.py against the
-- contract, up to what BSON keeps of a job.
use ai_microservices.Engine.Repository.{Failed, Refused}
use ai_microservices.Base.{ℕ, String, some, ◌≡◌, string_eq, inl, inr, ap, ◌∙◌, ◌⊎◌, nat_eq, pair_eq}
use ai_microservices.Base.Value.{Value, Fields}
use ai_microservices.Engine.Job.{Exception, raised, done, AiJob}
use ai_microservices.Engine.Orchestrator.Verdict.{Attempt-cases}
use ai_microservices.Engine.Job.Serial.{Iso, IsInverse}
use ai_microservices.Engine.Repository.Mongo.{
  Collection, IsCollection, matches, save, update, replaced, mongo,
}
use ai_microservices.Engine.Repository.Mongo.Kept.{kept, doc_of, pair_path, to_doc_lem}

module _ (iso : Iso) where
  module _ (inverse : IsInverse iso) where
    module _ (C : Collection) (fails : Exception → Type 0) (lawful : IsCollection C fails) where
      open C use {State, insert_one, find_one, replace_one}

      abbrev SaveFails : AiJob → State → Type 0
      SaveFails j s = Failed (mongo iso C) kept fails s (save iso C j s)

      abbrev SaveRefused : AiJob → State → Type 0
      SaveRefused j s = Refused (mongo iso C) kept fails s (save iso C j s)

      abbrev UpdateFails : AiJob → State → Type 0
      UpdateFails j s = Failed (mongo iso C) kept fails s (update iso C j s)

      abbrev UpdateRefused : AiJob → State → Type 0
      UpdateRefused j s = Refused (mongo iso C) kept fails s (update iso C j s)

      update_replaced :
          (j : AiJob) (s : State)
          → update iso C j s ≡ replaced iso C j.job_id (replace_one j.job_id (doc_of iso j) s)
      unfolding update
      update_replaced j s = simp (update, to_doc_lem iso inverse j)

      update_failed :
          (j : AiJob) (e : Exception) (s : State)
          → (replace_one j.job_id (doc_of iso j) s).0 ≡ raised e
          → UpdateFails j s
      update_failed j e s h =
          let (f, same) = lawful.replace_raised j.job_id (doc_of iso j) e s h in
          (e, f, update_replaced j s ∙ ap (replaced iso C j.job_id) (pair_path h same))

      -- the count is that of the documents found
      update_matched :
          (j : AiJob) (s : State) (n : ℕ)
          → matches (find_one j.job_id s) ≡ n
          → ((replace_one j.job_id (doc_of iso j) s).0 ≡ done n) ⊎ UpdateFails j s
      update_matched j s n m = elim (Attempt-cases (replace_one j.job_id (doc_of iso j) s).0) [
        | inl (e, h) ↦ inr (update_failed j e s h)
        | inr (k, h) ↦
            inl (h ∙ ap (λ c. done c) (lawful.replace_count j.job_id (doc_of iso j) k s h ∙ m))
      ]

      update_found :
          (j : AiJob) (d : Fields) (s : State)
          → find_one j.job_id s ≡ some d
          → ((replace_one j.job_id (doc_of iso j) s).0 ≡ done 1) ⊎ UpdateFails j s
      update_found j d s found = update_matched j s 1 (ap matches found)
