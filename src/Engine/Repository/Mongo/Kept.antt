-- ===== src/Engine/Repository/Mongo/Kept.antt =====
-- What MongoDB keeps of a job of ai_engine/domain/models.py, and the document that is written of it.
use ai_microservices.Base.{
  String, Option, none, some, ◌≡◌, string_eq, inl, inr, refl, ◌⊎◌, nat_eq, pair_eq,
}
use ai_microservices.Base.Value.{get, Value, Fields, field, text, date}
use ai_microservices.Engine.Job.{Exception, AiJob, JobResult}
use ai_microservices.Engine.Job.Serial.{
  Iso, IsInverse, to_dict, from_dict-to_dict, result_value, result_to_dict, error_value,
}
use ai_microservices.Engine.Repository.Mongo.{
  Insertion, inserted, duplicate_key, not_inserted, milliseconds, kept_value, kept_fields, set,
  to_doc, from_doc,
}

-- what MongoDB keeps of a result, and of a job
abbrev pub kept_result : Option JobResult → Option JobResult
kept_result none = none
kept_result (some r) =
    some (record r { output = kept_fields r.output; metadata = kept_fields r.metadata })

abbrev pub kept : AiJob → AiJob
kept j = record j {
  payload = kept_fields j.payload;
  result = kept_result j.result;
  created_at = milliseconds j.created_at;
  updated_at = milliseconds j.updated_at;
  tags = kept_fields j.tags;
}

kept_value-error : (e : Option String) → kept_value (error_value e) ≡ error_value e
kept_value-error none = refl
kept_value-error (some e) = refl

kept_value-result :
    (r : Option JobResult) → kept_value (result_value r) ≡ result_value (kept_result r)
unfolding result_to_dict
kept_value-result none = refl
kept_value-result (some r) = simp (kept_value-error r.error)

pub pair_path : {A B : Type 0} {x : A × B} {a : A} {b : B} → x.0 ≡ a → x.1 ≡ b → x ≡ (a, b)
pair_path p q = λ i. (p i, q i)

pub insertion_cases :
    {A : Type 0} (o : Insertion A)
    → ((s : A) × (o ≡ inserted s)) ⊎ (o ≡ duplicate_key) ⊎ ((e : Exception) × (o ≡ not_inserted e))
insertion_cases (inserted s) = inl (s, refl)
insertion_cases duplicate_key = inr (inl refl)
insertion_cases (not_inserted e) = inr (inr (e, refl))

module _ (iso : Iso) where
  abbrev pub doc_of : AiJob → Fields
  doc_of j =
      set "updated_at" (date j.updated_at) (set "created_at" (date j.created_at) (to_dict iso j))

  pub id_of-doc : (j : AiJob) → get "job_id" (doc_of j) ≡ some (text j.job_id)
  unfolding to_dict
  id_of-doc j = refl

  pub kept_fields-doc : (j : AiJob) → kept_fields (doc_of j) ≡ doc_of (kept j)
  unfolding to_dict
  kept_fields-doc j = simp (kept_value-result j.result)

  module _ (inverse : IsInverse iso) where
    pub to_doc_lem : (j : AiJob) → to_doc iso j ≡ some (doc_of j)
    unfolding to_doc to_dict
    to_doc_lem j = simp inverse

    pub from_doc-doc : (v : Value) (j : AiJob) → from_doc iso (field "_id" v (doc_of j)) ≡ some j
    unfolding from_doc to_dict
    from_doc-doc v j = from_dict-to_dict iso inverse j
