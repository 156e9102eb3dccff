-- ===== src/Engine/Tasks/Summarization.antt =====
-- ai_engine/application/tasks/summarization.py, with a service and without a `summariser`, as
-- infrastructure/container.py builds the task. The model behind the service, the regular expression
-- that splits a text into sentences and the formatting of values are parameters; so is the arithmetic
-- of floats.
pub mod Total
use ai_microservices.Base.{
  ℕ, String, Bool, true, false, not, Option, none, some, List, [], ◌∷◌, if◌then◌else◌, ltb, length,
  take, map, filter, string_eq, suc, ◌-◌,
}
use ai_microservices.Base.Int.{negsuc, pos, ltb_ℤ}
use ai_microservices.Base.Text.{truthy, strip}
use ai_microservices.Base.Text.Split.{split}
use ai_microservices.Base.Value.{Value, Fields, end, field, get, text, int, bool, null, float}
use ai_microservices.Engine.Job.{
  Exception, value_error, other, Attempt, raised, done, JobResult, failure,
}
use ai_microservices.Engine.Orchestrator.{Task}
use Prim.Native.String.{◌++◌}

-- what a summary is reported with; a float is its bits
pub record Output : Type 0 where
  pub summary : String
  pub original_word_count : ℕ
  pub summary_word_count : ℕ
  pub compression_ratio : ℕ
  pub truncated : Bool
  pub model_name : String
  pub latency_ms : ℕ

-- what a call of the service comes to: SummarizationError and other exceptions have a text
pub data Summarized : Type 0 where
  output : Output → Summarized
  summarization_error : String → Summarized
  unexpected : String → Summarized

pub record Environment : Type 0 where
  pub summarize : Value → Option Value → Option Value → Summarized
  pub mentions_transformers : String → Bool
  pub sentences_in : String → List String
  pub ratio : ℕ → ℕ → ℕ
  pub elapsed : ℕ
  pub show : ℕ → String
  pub repr : Value → String
  -- the text of the AttributeError of `value.strip()` on a value that is no text
  pub no_strip : Value → String

abbrev pub min_word_count : ℕ
min_word_count = 20

abbrev pub max_word_count : ℕ
max_word_count = 50000

-- `null` is None
abbrev pub present : Option Value → Option Value
present none = none
present (some null) = none
present (some v) = some v

-- `payload.get(key)`
abbrev pub given : String → Fields → Option Value
given key payload = present (get key payload)

-- `isinstance(val, int) and val >= 1`: `True` is the integer 1
abbrev pub is_positive : Value → Bool
is_positive (int n) = not (ltb_ℤ n (pos 1))
is_positive (bool b) = b
is_positive _ = false

abbrev pub fits : Option Value → Bool
fits none = true
fits (some v) = is_positive v

abbrev pub limit_keys : List String
limit_keys = "max_new_tokens" ∷ "min_new_tokens" ∷ "max_sentences" ∷ []

abbrev pub joined : List String → String
joined [] = ""
joined (s ∷ []) = s
joined (s ∷ t ∷ ts) = s ++ (" " ++ joined (t ∷ ts))

-- `sentences[:max_sentences]`, where the payload has a value or not: none is the TypeError
abbrev pub first_sentences : Option Value → List String → Option (List String)
first_sentences none sentences = some (take 3 sentences)
first_sentences (some null) sentences = some sentences
first_sentences (some (int (pos n))) sentences = some (take n sentences)
first_sentences (some (int (negsuc n))) sentences = some (take (length sentences - suc n) sentences)
first_sentences (some (bool true)) sentences = some (take 1 sentences)
first_sentences (some (bool false)) sentences = some []
first_sentences (some v) sentences = none

module _ (env : Environment) where
  abbrev bad_limit : String → Value → Exception
  bad_limit key v =
      value_error ("'" ++ (key ++ ("' must be a positive integer, got: " ++ (env.repr v ++ "."))))

  abbrev too_short : ℕ → Exception
  too_short n =
      value_error
        ("Text is too short to summarise (" ++ (env.show n ++ " words). Minimum: 20 words."))

  abbrev too_long : ℕ → Exception
  too_long n =
      value_error (
        "Text exceeds maximum allowed length (" ++ (env.show n ++ " words). Maximum: 50000 words."))

  abbrev pub check_limits : List String → Fields → Attempt (Unit {0})
  check_limits [] payload = done tt
  check_limits (key ∷ keys) payload = elim (given key payload) [
    | none ↦ check_limits keys payload
    | some v ↦ if is_positive v then check_limits keys payload else raised (bad_limit key v)
  ]

  abbrev pub check_text : Fields → String → Attempt (Unit {0})
  check_text payload s =
      if not (truthy (strip s))
      then raised (value_error "Payload must contain a non-empty string 'text' field.")
      else if ltb (length (split s)) min_word_count
      then raised (too_short (length (split s)))
      else if ltb max_word_count (length (split s))
      then raised (too_long (length (split s)))
      else check_limits limit_keys payload

  abbrev pub check_body : Fields → Option Value → Attempt (Unit {0})
  check_body payload (some (text s)) = check_text payload s
  check_body payload _ =
      raised (value_error "Payload must contain a non-empty string 'text' field.")

  unfoldable pub validate_payload : Fields → Attempt (Unit {0})
  validate_payload payload = check_body payload (get "text" payload)

  abbrev pub reported : Output → JobResult
  reported o = record {
    success = true;
    output = field "summary" (text o.summary) (
        field "original_word_count" (int (pos o.original_word_count)) (
          field "summary_word_count" (int (pos o.summary_word_count)) (
            field "compression_ratio" (float o.compression_ratio)
              (field "truncated" (bool o.truncated) end))));
    error = none;
    metadata = field "model_name" (text o.model_name) (field "latency_ms" (float o.latency_ms) end);
  }

  -- `_summarization_output`
  abbrev pub output_of : String → String → Output
  output_of s summary = record {
    summary = summary;
    original_word_count = length (split s);
    summary_word_count = length (split summary);
    compression_ratio = env.ratio (length (split s)) (length (split summary));
    truncated = false;
    model_name = "lightweight-extractive";
    latency_ms = env.elapsed;
  }

  abbrev or_whole : String → List String → List String
  or_whole s [] = strip s ∷ []
  or_whole s (t ∷ ts) = t ∷ ts

  abbrev pub sentences_of : String → List String
  sentences_of s = or_whole s (filter truthy (map strip (env.sentences_in (strip s))))

  -- `_LightweightSummarizationService.summarize`, and the result made of it
  abbrev pub lightweight : Value → Option Value → Attempt JobResult
  lightweight (text s) max_sentences = elim (first_sentences max_sentences (sentences_of s)) [
    | none ↦ raised (other "slice indices must be integers or None or have an __index__ method")
    | some sentences ↦ done (reported (output_of s (joined sentences)))
  ]
  lightweight v max_sentences = raised (other (env.no_strip v))

  abbrev pub concluded : Value → Option Value → Summarized → Attempt JobResult
  concluded v max_sentences (output o) = done (reported o)
  concluded v max_sentences (summarization_error e) =
      if env.mentions_transformers e then lightweight v max_sentences else done (failure e)
  concluded v max_sentences (unexpected e) =
      done (failure ("Unexpected summarization error: " ++ e))

  -- `payload["text"]` raises KeyError where the key is missing
  unfoldable pub execute : Fields → Attempt JobResult
  execute payload = elim (get "text" payload) [
    | none ↦ raised (other "'text'")
    | some v ↦
        concluded v (get "max_sentences" payload)
          (env.summarize v (given "max_new_tokens" payload) (given "min_new_tokens" payload))
  ]

  abbrev pub summarization : Task
  summarization = record { validate_payload = validate_payload; execute = execute }
