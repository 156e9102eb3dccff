-- ===== src/Engine/Tasks/Sentiment.antt =====
-- ai_engine/application/tasks/sentiment_analysis.py, without a service and without an `analyser`, as
-- infrastructure/container.py builds the task. `str.lower`, the arithmetic of floats and the formatting
-- of values are parameters.
pub mod Threshold
use Prim.Native.Char.{Char, code}
use Prim.Native.String.{◌++◌}
use ai_microservices.Base.{
  String, ℕ, Bool, Option, none, some, List, true, false, not, ◌&&◌, ◌||◌, [], ◌∷◌, map, ltb,
  if◌then◌else◌, length, filter, nat_eq, string_eq, ◌==◌, pair_eq, contains,
}
use ai_microservices.Base.Int.{ℤ, pos, negsuc}
use ai_microservices.Base.Text.{truthy, strip}
use ai_microservices.Base.Text.Split.{split}
use ai_microservices.Base.Value.{
  Value, Fields, end, field, get, text, int, bool, null, float, object,
}
use ai_microservices.Engine.Job.{
  Exception, value_error, other, Attempt, raised, done, JobResult, failure,
}
use ai_microservices.Engine.Orchestrator.{Task}
use ai_microservices.Engine.Tasks.Summarization.{given}
use ai_microservices.Api.Http.Schemas.{text_length}
use ai_microservices.Api.Ai.{below_one}

pub record Environment : Type 0 where
  pub lower : String → String
  -- `0.75 + min(0.24, hits * 0.05)`, and the score of a neutral text
  pub score : ℕ → ℕ
  pub neutral_score : ℕ
  -- `round(score, 6)` and `round(max(0.0, 1.0 - score), 6)`
  pub rounded : ℕ → ℕ
  pub complement : ℕ → ℕ
  pub elapsed : ℕ
  pub show : ℕ → String
  pub repr : Value → String
  -- `float` of an integer that is too large raises OverflowError
  pub overflows : ℤ → Bool
  -- the texts of the AttributeErrors on `_get_pipeline` and on `split` of a value that is no text
  pub no_pipeline : String
  pub no_split : Value → String

abbrev min_char_count : ℕ
min_char_count = 3

abbrev max_word_count : ℕ
max_word_count = 10000

abbrev pub positive_words : List String
positive_words = "great" ∷ "wonderful" ∷ "excellent" ∷ "good" ∷ "love" ∷ "fantastic" ∷ "happy" ∷ []

abbrev pub negative_words : List String
negative_words = "terrible" ∷ "horrible" ∷ "bad" ∷ "hate" ∷ "awful" ∷ "poor" ∷ "sad" ∷ []

-- one of ".,!?;:"
abbrev is_mark : Char → Bool
is_mark c =
    code c == 46 || code c == 44 || code c == 33 || code c == 63 || code c == 59 || code c == 58

abbrev lstrip_marks : String → String
lstrip_marks String.[] = ""
lstrip_marks (String.◌∷◌ c s) =
    let rest = lstrip_marks s in if is_mark c then rest else String.◌∷◌ c s

abbrev rstrip_marks : String → String
rstrip_marks String.[] = ""
rstrip_marks (String.◌∷◌ c s) =
    let rest = rstrip_marks s in if is_mark c && not (truthy rest) then "" else String.◌∷◌ c rest

-- `word.strip(".,!?;:")`
abbrev strip_marks : String → String
strip_marks s = rstrip_marks (lstrip_marks s)

pub record Output : Type 0 where
  pub label : String
  pub score : ℕ
  pub is_neutral : Bool
  pub word_count : ℕ
  pub model_name : String
  pub latency_ms : ℕ

abbrev is_zero : ℤ → Bool
is_zero (pos n) = n == 0
is_zero (negsuc n) = false

module _ (env : Environment) where
  abbrev threshold_message : Value → String
  threshold_message v =
      "'neutral_threshold' must be a float in [0.0, 1.0), got: " ++ (env.repr v ++ ".")

  abbrev in_range : Value → Bool → Attempt (Unit {0})
  in_range v b =
      if b
      then done tt
      else raised
          (value_error ("'neutral_threshold' must be in [0.0, 1.0), got: " ++ (env.repr v ++ ".")))

  -- 0 is the only integer in the range, and `False` is 0
  abbrev pub check_threshold : Option Value → Attempt (Unit {0})
  check_threshold none = done tt
  check_threshold (some (float b)) = in_range (float b) (below_one b)
  check_threshold (some (int z)) =
      if env.overflows z
      then raised (other "int too large to convert to float")
      else in_range (int z) (is_zero z)
  check_threshold (some (bool b)) = in_range (bool b) (not b)
  check_threshold (some v) = raised (value_error (threshold_message v))

  abbrev too_short : ℕ → Exception
  too_short n = value_error (
      "Text is too short for sentiment analysis ("
      ++ (env.show n ++ " chars). Minimum: 3 characters."))

  abbrev too_long : ℕ → Exception
  too_long n =
      value_error (
        "Text exceeds maximum allowed length (" ++ (env.show n ++ " words). Maximum: 10000 words."))

  abbrev pub check_text : Option Value → String → Attempt (Unit {0})
  check_text threshold s =
      if not (truthy (strip s))
      then raised (value_error "Payload must contain a non-empty string 'text' field.")
      else if ltb (text_length (strip s)) min_char_count
      then raised (too_short (text_length (strip s)))
      else if ltb max_word_count (length (split s))
      then raised (too_long (length (split s)))
      else check_threshold threshold

  abbrev check_body : Option Value → Option Value → Attempt (Unit {0})
  check_body threshold (some (text s)) = check_text threshold s
  check_body threshold v =
      raised (value_error "Payload must contain a non-empty string 'text' field.")

  unfoldable pub validate_payload : Fields → Attempt (Unit {0})
  validate_payload payload = check_body (given "neutral_threshold" payload) (get "text" payload)

  -- the set of the words without their marks, in lower case: what of the lexicon is in it
  abbrev pub words_of : String → List String
  words_of s = map (λ w. env.lower (strip_marks w)) (split s)

  abbrev pub hits : List String → String → ℕ
  hits lexicon s = length (filter (contains (words_of s)) lexicon)

  abbrev labelled : String → String → ℕ → Output
  labelled s label score = record {
    label = label;
    score = score;
    is_neutral = label == "neutral";
    word_count = length (split s);
    model_name = "lightweight-lexicon";
    latency_ms = env.elapsed;
  }

  -- `_LightweightSentimentService.analyze`
  unfoldable pub analyze : String → Output
  analyze s =
      let p = hits positive_words s in
      let n = hits negative_words s in
      if ltb n p
      then labelled s "positive" (env.score p)
      else if ltb p n
      then labelled s "negative" (env.score n)
      else labelled s "neutral" env.neutral_score

  abbrev opposite : String → String
  opposite label = if label == "positive" then "negative" else "positive"

  -- `output.to_dict()["scores"]`: the two keys differ
  abbrev scores : Output → Fields
  scores o =
      field o.label (float (env.rounded o.score))
        (field (opposite o.label) (float (env.complement o.score)) end)

  abbrev pub reported : Output → JobResult
  reported o = record {
    success = true;
    output = field "label" (text o.label) (
        field "score" (float o.score) (
          field "scores" (object (scores o)) (
            field "is_neutral" (bool o.is_neutral) (
              field "word_count" (int (pos o.word_count))
                (field "input_truncated" (bool false) end)))));
    error = none;
    metadata = field "model_name" (text o.model_name) (field "latency_ms" (float o.latency_ms) end);
  }

  -- `_ThresholdShim.analyze` asks the service for its pipeline, which the lightweight one has not; what
  -- `text.split` raises on a value that is no text is caught too
  abbrev pub analysed : Option Value → Value → JobResult
  analysed (some threshold) v = failure ("Unexpected sentiment analysis error: " ++ env.no_pipeline)
  analysed none (text s) = reported (analyze s)
  analysed none v = failure ("Unexpected sentiment analysis error: " ++ env.no_split v)

  -- `payload["text"]` raises KeyError where the key is missing
  unfoldable pub execute : Fields → Attempt JobResult
  execute payload = elim (get "text" payload) [
    | none ↦ raised (other "'text'")
    | some v ↦ done (analysed (given "neutral_threshold" payload) v)
  ]

  abbrev pub sentiment : Task
  sentiment = record { validate_payload = validate_payload; execute = execute }
