-- ===== src/Engine/Repository/Mongo.antt =====
-- ai_engine/infrastructure/persistence/mongo_repository.py, and motor_repository.py, whose methods
-- are the same with `await`. The collection is the driver's; what is asked of it is its documentation.
pub mod Kept
pub mod Refines
use ai_microservices.Base.Maybe.{◌>>=◌}
use Prim.Native.String.{◌++◌}
use ai_microservices.Base.{
  String, Option, none, some, List, ◌≡◌, ◌==◌, string_eq, ℕ, false, [], ◌∷◌, if◌then◌else◌, nat_eq,
  pair_eq, refl, not, ◌*◌, ◌/◌, ◌≢◌,
}
use ai_microservices.Base.Value.{
  get, Value, Fields, end, field, text, date, array, object, Items, nil, cons,
}
use ai_microservices.Api.Status.Diagram.{Status, name}
use ai_microservices.Engine.Job.{Exception, value_error, other, Attempt, raised, done, AiJob}
use ai_microservices.Engine.Job.Serial.{Iso, IsInverse, to_dict, from_dict, from_dict-to_dict}
use ai_microservices.Engine.Repository.{AiJobRepository}

-- what `insert_one` comes to: the new state, DuplicateKeyError, or another exception, such as that of a
-- value that BSON has not
pub data Insertion (State : Type 0) : Type 0 where
  inserted : State → Insertion State
  duplicate_key : Insertion State
  not_inserted : Exception → Insertion State

-- `find` is `find({"status": …}).sort("created_at", 1).skip(…).limit(…)`; `replace_one` gives
-- `matched_count`, or raises.
pub record Collection : Type 1 where
  pub State : Type 0
  pub insert_one : Fields → State → Insertion State
  pub find_one : String → State → Option Fields
  pub find : String → Option ℕ → ℕ → State → List Fields
  pub replace_one : String → Fields → State → Attempt ℕ × State

-- a datetime as BSON has it, in whole milliseconds
abbrev pub milliseconds : ℕ → ℕ
milliseconds t = t / 1000 * 1000

-- What comes back of a document. It also comes back without its time zone, which a time in the model
-- has not.
abbrev mutual
  pub kept_value : Value → Value
  kept_value (date t) = date (milliseconds t)
  kept_value (object fs) = object (kept_fields fs)
  kept_value (array vs) = array (kept_items vs)
  kept_value v = v

  pub kept_fields : Fields → Fields
  kept_fields end = end
  kept_fields (field k v fs) = field k (kept_value v) (kept_fields fs)

  pub kept_items : Items → Items
  kept_items nil = nil
  kept_items (cons v vs) = cons (kept_value v) (kept_items vs)

-- how many documents a search by identifier finds
abbrev pub matches : Option Fields → ℕ
matches none = 0
matches (some d) = 1

module _ (C : Collection) (fails : Exception → Type 0) where
  open C use {State, insert_one, find_one, replace_one}

  -- What the driver documents of a collection with a unique index on `job_id`, while the server
  -- answers the searches: a document that is written gets or keeps an `_id`, and comes back as BSON has
  -- it; a write that raises, with an exception of those that `fails` says, has changed nothing.
  pub record IsCollection : Type 0 where
    pub insert_fails :
        (d : Fields) (e : Exception) (s : State) → insert_one d s ≡ not_inserted e → fails e
    pub insert_new :
        (i : String) (d : Fields) (s : State)
        → get "job_id" d ≡ some (text i)
        → find_one i s ≡ none
        → insert_one d s ≢ duplicate_key
    pub insert_duplicate :
        (i : String) (d old : Fields) (s s' : State)
        → get "job_id" d ≡ some (text i)
        → find_one i s ≡ some old
        → insert_one d s ≢ inserted s'
    pub find-insert :
        (i : String) (d : Fields) (s s' : State)
        → get "job_id" d ≡ some (text i)
        → insert_one d s ≡ inserted s'
        → (v : Value) × (find_one i s' ≡ some (field "_id" v (kept_fields d)))
    pub find-insert_other :
        (i k : String) (d : Fields) (s s' : State)
        → get "job_id" d ≡ some (text i)
        → insert_one d s ≡ inserted s'
        → (i == k) ≡ false
        → find_one k s' ≡ find_one k s
    pub replace_count :
        (i : String) (d : Fields) (n : ℕ) (s : State)
        → (replace_one i d s).0 ≡ done n
        → n ≡ matches (find_one i s)
    pub replace_missing :
        (i : String) (d : Fields) (s : State) → find_one i s ≡ none → (replace_one i d s).1 ≡ s
    pub replace_raised :
        (i : String) (d : Fields) (e : Exception) (s : State)
        → (replace_one i d s).0 ≡ raised e
        → fails e × ((replace_one i d s).1 ≡ s)
    pub find-replace :
        (i : String) (d : Fields) (s : State)
        → get "job_id" d ≡ some (text i)
        → (replace_one i d s).0 ≡ done 1
        → (v : Value) × (find_one i (replace_one i d s).1 ≡ some (field "_id" v (kept_fields d)))
    pub find-replace_other :
        (i k : String) (d : Fields) (s : State)
        → get "job_id" d ≡ some (text i)
        → (i == k) ≡ false
        → find_one k (replace_one i d s).1 ≡ find_one k s

-- `d[key] = value`
abbrev pub set : String → Value → Fields → Fields
set key v end = field key v end
set key v (field k w fs) = if k == key then field k v fs else field k w (set key v fs)

-- `raw.pop(key, None)`
abbrev pop : String → Fields → Fields
pop key end = end
pop key (field k w fs) = if k == key then fs else field k w (pop key fs)

module _ (iso : Iso) where
  -- `datetime.fromisoformat(d[key])`
  abbrev parsed : String → Fields → Option ℕ
  parsed key d = elim (get key d) [ some (text s) ↦ iso.fromisoformat s | _ ↦ none ]

  unfoldable pub to_doc : AiJob → Option Fields
  to_doc job =
      let d = to_dict iso job in
      (do
        created_at ← parsed "created_at" d
        updated_at ← parsed "updated_at" d
        some (set "updated_at" (date updated_at) (set "created_at" (date created_at) d)))

  -- one turn of the loop over the two keys: a `datetime` is written out, anything else stays
  abbrev normalised : String → Fields → Fields
  normalised key raw = elim (get key raw) [
    | some (date t) ↦ set key (text (iso.isoformat t)) raw
    | _ ↦ raw
  ]

  unfoldable pub from_doc : Fields → Option AiJob
  from_doc doc = from_dict iso (normalised "updated_at" (normalised "created_at" (pop "_id" doc)))

  module _ (C : Collection) where
    open C use {State, insert_one, find_one, find, replace_one}

    -- what `from_dict` raises is an error of one kind or another
    abbrev malformed : Exception
    malformed = other "malformed document"

    unfoldable pub save : AiJob → State → Attempt (Unit {0}) × State
    save job s = elim (to_doc job) [
      | none ↦ (raised (value_error "Invalid isoformat string"), s)
      | some doc ↦ elim (insert_one doc s) [
        | inserted s' ↦ (done tt, s')
        | duplicate_key ↦
            (raised (value_error ("Job with id '" ++ job.job_id ++ "' already exists.")), s)
        | not_inserted e ↦ (raised e, s)
      ]
    ]

    unfoldable pub get_by_id : String → State → Attempt (Option AiJob)
    get_by_id job_id s = elim (find_one job_id s) [
      | none ↦ done none
      | some doc ↦ elim (from_doc doc) [ none ↦ raised malformed | some job ↦ done (some job) ]
    ]

    abbrev from_docs : List Fields → Attempt (List AiJob)
    from_docs [] = done []
    from_docs (doc ∷ docs) = elim (from_doc doc) [
      | none ↦ raised malformed
      | some job ↦ elim (from_docs docs) [ raised e ↦ raised e | done jobs ↦ done (job ∷ jobs) ]
    ]

    unfoldable pub list_by_status : Status → Option ℕ → ℕ → State → Attempt (List AiJob)
    list_by_status status limit offset s = from_docs (find (name status) limit offset s)

    -- by `matched_count`
    abbrev replaced : String → Attempt ℕ × State → Attempt (Unit {0}) × State
    replaced job_id (raised e, s) = (raised e, s)
    replaced job_id (done n, s) =
        if n == 0
        then (raised (value_error ("Job '" ++ job_id ++ "' not found; cannot update.")), s)
        else (done tt, s)

    unfoldable pub update : AiJob → State → Attempt (Unit {0}) × State
    update job s = elim (to_doc job) [
      | none ↦ (raised (value_error "Invalid isoformat string"), s)
      | some doc ↦ replaced job.job_id (replace_one job.job_id doc s)
    ]

    abbrev pub mongo : AiJobRepository
    mongo = record {
      State = State;
      save = save;
      get_by_id = get_by_id;
      list_by_status = list_by_status;
      update = update;
    }
