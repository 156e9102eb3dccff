-- ===== src/Engine/Examples/Documents.antt =====
-- A collection of documents in memory, which keeps of each what BSON keeps, and refuses a document
-- without a job_id.
use ai_microservices.Base.{
  ℕ, String, Bool, false, some, if◌then◌else◌, string_eq, filter, drop, nat_eq, ◌==◌, pair_eq,
  Option,
}
use ai_microservices.Base.Dict.{Dict, lookup, insert, has_key, values}
use ai_microservices.Base.Value.{Value, Fields, field, text, get}
use ai_microservices.Engine.Job.{Exception, other, Attempt, done}
use ai_microservices.Engine.Repository.Mongo.{
  Collection, Insertion, inserted, duplicate_key, not_inserted, kept_fields,
}

abbrev Docs : Type 0
Docs = Dict String Fields

abbrev has_status : String → Fields → Bool
has_status status d = elim (get "status" d) [ some (text s) ↦ s == status | _ ↦ false ]

abbrev stored : Fields → Fields
stored d = field "_id" Value.null (kept_fields d)

abbrev no_id : Exception
no_id = other "no job_id"

abbrev insert_at : Option Value → Fields → Docs → Insertion Docs
insert_at (some (text i)) d s =
    if has_key i s then duplicate_key else inserted (insert i (stored d) s)
insert_at _ d s = not_inserted no_id

abbrev insert_one : Fields → Docs → Insertion Docs
insert_one d s = insert_at (get "job_id" d) d s

abbrev replace_one : String → Fields → Docs → Attempt ℕ × Docs
replace_one i d s = if has_key i s then (done 1, insert i (stored d) s) else (done 0, s)

abbrev documents : Collection
documents = record {
  State = Docs;
  insert_one = insert_one;
  find_one = λ i s. lookup i s;
  find = λ status limit offset s. drop offset (filter (has_status status) (values s));
  replace_one = replace_one;
}
