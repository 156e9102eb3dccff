-- ===== src/Api/Examples/Tokens.antt =====
-- Requests with the token of one user.
use ai_microservices.Base.{
  ◌⊎◌, ℕ, String, ◌≡◌, refl, true, none, some, [], ◌∷◌, Option, string_eq, ◌==◌, any, contains, map,
  Bool, if◌then◌else◌, nat_eq, pair_eq,
}
use Prim.Native.String.{◌++◌}
use ai_microservices.Base.Int.{pos}
use ai_microservices.Base.Text.{strip}
use ai_microservices.Base.Value.{Value, Fields, field, end, text, int, array, cons, nil, get}
use ai_microservices.Policy.Roles.{AuthContext, value, of_value}
use ai_microservices.Policy.Token.{
  Decoded, claims, decode_error, validate_token, validate_signature, auth_context,
}
use ai_microservices.Policy.Token.Checked.{IsContextOf}
use ai_microservices.Propagation.{Headers, set_request_context}
use ai_microservices.Api.Middleware.{
  State, Reply, returned, raised, unauthorized_error, forbidden_error, extract_bearer, populate,
  jwt_before_request, require_role, handle,
}
use ai_microservices.Api.Middleware.Served.{role_served}

abbrev token_claims : String → Fields
token_claims token_type = field "iss" (text "auth") (
    field "aud" (text "api") (
      field "sub" (text "alice") (
        field "iat" (int (pos 100)) (
          field "exp" (int (pos 1000)) (
            field "roles" (array (cons (text "user") nil)) (
              field "session_id" (text "s1")
                (field "jti" (text "j") (field "token_type" (text token_type) end))))))))

abbrev decode : String → Decoded
decode token =
    if token == "access"
    then claims (token_claims "access")
    else if token == "refresh"
    then claims (token_claims "refresh")
    else decode_error

abbrev stamp : Value → Option ℕ
stamp (int (pos n)) = some n
stamp v = none

abbrev same_path : String → String → Bool
same_path pattern path = pattern == path

abbrev bearer : String → Headers
bearer token name = if name == "Authorization" then some ("Bearer " ++ token) else none

abbrev fresh : State
fresh = record {
  g = record {
    correlation_id = some "c1";
    request_id = some "r1";
    user_id = none;
    email = none;
    roles = none;
    session_id = none;
    jwt_claims = none;
    bearer_token = none;
    auth_context = none;
  };
  variables = record {
    correlation_id = none;
    request_id = none;
    user_id = none;
    traceparent = none;
    bearer_token = none;
  };
}

-- a route that answers who calls
abbrev whoami : State → Reply (Option String)
whoami s = returned s.g.user_id

abbrev served : String → String → Reply (Option String)
served token role =
    handle
      (jwt_before_request same_path (validate_token stamp (validate_signature decode "auth" "api"))
        true true none "/v1/jobs" (bearer token) fresh)
      (require_role whoami (role ∷ []))

answered : served "access" "user" ≡ returned (some "alice")
unfolding jwt_before_request require_role validate_token validate_signature auth_context
    extract_bearer populate strip of_value set_request_context
answered = refl

other_role : served "access" "admin" ≡ raised forbidden_error
unfolding jwt_before_request require_role validate_token validate_signature auth_context
    extract_bearer populate strip of_value set_request_context
other_role = refl

refresh_refused : served "refresh" "user" ≡ raised unauthorized_error
unfolding jwt_before_request require_role validate_token validate_signature auth_context
    extract_bearer populate strip of_value set_request_context
refresh_refused = refl

role_served_example :
    (raw_token : String) × (fs : Fields) × (c : AuthContext) × (extract_bearer (bearer "access")
      ≡ some raw_token)
    × (decode raw_token ≡ claims fs)
    × (get "iss" fs ≡ some (text "auth"))
    × (get "aud" fs ≡ some (text "api"))
    × IsContextOf fs c
    × ((get "token_type" fs ≡ none) ⊎ (get "token_type" fs ≡ some (text "access")))
    × (any (λ role. contains (map value c.roles) role) ("user" ∷ []) ≡ true)
    × (whoami (populate (bearer "access") raw_token c fresh) ≡ returned (some "alice"))
role_served_example =
    role_served whoami same_path stamp decode "auth" "api" true true none "/v1/jobs"
      (bearer "access") ("user" ∷ []) fresh (some "alice") refl answered
