-- ===== src/Api/Ai.antt =====
-- services/api_service/src/presentation: the requests of routes/v1/ai/schemas.py, and
-- `validate_json_body` of middleware/validation.py. pydantic reads the fields of a body by their
-- declared types, which is the argument `read` of a route; the constraints and the validators are here.
pub mod Submit
pub mod Routes
pub mod Accepted
pub mod Payload
pub mod Bodies
pub mod Threshold
use ai_microservices.Api.Http.Schemas.{between, text_length}
use ai_microservices.Base.{
  String, Option, none, some, List, Bool, ℕ, true, false, not, ◌&&◌, ◌||◌, [], ◌∷◌, ltb, leb,
  if◌then◌else◌, nat_eq, string_eq, ◌==◌, pair_eq, contains,
}
use ai_microservices.Base.Int.{ℤ, pos, leb_ℤ, ltb_ℤ}
use ai_microservices.Base.Text.{truthy, strip}
use ai_microservices.Base.Value.{Value, Fields, object, end, null, Items, nil, cons}

pub record SummarizeRequest : Type 0 where
  pub body : String
  pub max_new_tokens : Option ℤ
  pub min_new_tokens : Option ℤ
  pub tags : Option Fields

-- a float is its bits
pub record SentimentRequest : Type 0 where
  pub body : String
  pub neutral_threshold : Option ℕ
  pub tags : Option Fields

-- `Union[str, List[Dict[str, Any]]]`
pub data Dataset : Type 0 where
  csv : String → Dataset
  records : List Fields → Dataset

pub record ProfileRequest : Type 0 where
  pub content : Dataset
  pub input_type : Option String
  pub tags : Option Fields

abbrev pub within : ℤ → ℤ → Option ℤ → Bool
within low high none = true
within low high (some n) = between low high n

-- `min_le_max`
abbrev pub min_le_max : Option ℤ → Option ℤ → Bool
min_le_max (some low) (some high) = not (ltb_ℤ high low)
min_le_max low high = true

abbrev pub fits_summarize : SummarizeRequest → Bool
fits_summarize r =
    leb 1 (text_length r.body)
    && within (pos 1) (pos 1024) r.max_new_tokens
    && within (pos 1) (pos 512) r.min_new_tokens
    && truthy (strip r.body)
    && min_le_max r.min_new_tokens r.max_new_tokens

-- Texts are stripped before they are checked, as the configuration says.
unfoldable pub validate_summarize : SummarizeRequest → Option SummarizeRequest
validate_summarize r =
    let r' = record r { body = strip r.body } in if fits_summarize r' then some r' else none

-- `0.0 <= t < 1.0` of a double: the bits of 1.0, and those of minus zero
abbrev pub below_one : ℕ → Bool
below_one b = ltb b 4607182418800017408 || b == 9223372036854775808

abbrev fits_threshold : Option ℕ → Bool
fits_threshold none = true
fits_threshold (some b) = below_one b

abbrev fits_sentiment : SentimentRequest → Bool
fits_sentiment r =
    leb 3 (text_length r.body) && fits_threshold r.neutral_threshold && truthy (strip r.body)

unfoldable pub validate_sentiment : SentimentRequest → Option SentimentRequest
validate_sentiment r =
    let r' = record r { body = strip r.body } in if fits_sentiment r' then some r' else none

abbrev stripped : Dataset → Dataset
stripped (csv s) = csv (strip s)
stripped (records rs) = records rs

-- `data_not_empty`
abbrev not_empty : Dataset → Bool
not_empty (csv s) = truthy (strip s)
not_empty (records []) = false
not_empty (records (r ∷ rs)) = true

abbrev known_type : Option String → Bool
known_type none = true
known_type (some t) = contains ("csv" ∷ "json" ∷ "auto" ∷ []) t

-- `input_type_consistent_with_data`
abbrev consistent : Option String → Dataset → Bool
consistent none d = true
consistent (some t) (csv s) = not (t == "json")
consistent (some t) (records rs) = not (t == "csv")

unfoldable pub validate_profile : ProfileRequest → Option ProfileRequest
validate_profile r =
    let d = stripped r.content in
    if not_empty d && known_type r.input_type && consistent r.input_type d
    then some (record r { content = d })
    else none

-- the body of a request, by its content type and by what the JSON parser makes of it
pub data Body : Type 0 where
  not_json : Body
  malformed : Body
  json : Value → Body

-- why a body is refused: the three answers with code 400, and the TypeError of `schema_class(**data)`
-- on a value that is no dictionary, which errors.py answers with 500
pub data Refusal : Type 0 where
  content_type : Refusal
  json_decode : Refusal
  invalid_fields : Refusal
  not_mapping : Refusal

abbrev pub refusal_code : Refusal → ℕ
refusal_code not_mapping = 500
refusal_code r = 400

pub data Checked (A : Type 0) : Type 0 where
  accepted : A → Checked A
  rejected : Refusal → Checked A

module _ {A : Type 0} (schema_class : Fields → Option A) where
  abbrev pub built : Option A → Checked A
  built none = rejected invalid_fields
  built (some a) = accepted a

  -- `validate_json_body`, to `request.validated_data`
  unfoldable pub validate_json_body : Body → Checked A
  validate_json_body not_json = rejected content_type
  validate_json_body malformed = rejected json_decode
  validate_json_body (json null) = built (schema_class end)
  validate_json_body (json (object fs)) = built (schema_class fs)
  validate_json_body (json v) = rejected not_mapping
