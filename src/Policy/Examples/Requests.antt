-- ===== src/Policy/Examples/Requests.antt =====
-- Requests with a token, through the handler of tokens and the decorators.
use Prim.Native.Char.{char}
use Prim.Native.String.{◌++◌}
use ai_microservices.Base.Text.Split.{split, HasNoBlank}
use Prim.Native.Char.{Char, code}
use ai_microservices.Base.{
  ℕ, String, some, [], ◌∷◌, ◌≡◌, refl, true, if◌then◌else◌, Option, string_eq,
}
use ai_microservices.Base.Text.{is_space, strip}
use ai_microservices.Base.Value.{Value, Fields, end, field, text, get}
use ai_microservices.Policy.Roles.{user, AuthContext, aware, has_any_role, of_value}
use ai_microservices.Policy.Rules.{Policy}
use ai_microservices.Policy.Token.{
  invalid_token, passed, denied, crashed, Decoded, validate_signature, validate_token,
  extract_bearer_token, is_bearer, insufficient_permissions, auth_context, Outcome,
}
use ai_microservices.Policy.Token.Checked.{extract_bearer, IsContextOf}
use ai_microservices.Policy.Guards.{
  before_request, serve, require_role, require_authenticated, require_policy,
}
use ai_microservices.Policy.Guards.Routes.{role_route, accepted_crashes}
use ai_microservices.Policy.Examples.{context, request}

abbrev stamp : Value → Option ℕ
stamp v = some 9

abbrev payload : Fields
payload = field "iss" (text "auth") (
    field "aud" (text "api") (
      field "sub" (text "u1") (
        field "iat" Value.null (
          field "exp" Value.null (
            field "roles" (text "user")
              (field "session_id" (text "s1") (field "jti" (text "t") end)))))))

abbrev answer : Outcome String
answer = passed "ok"

abbrev decode : String → Decoded
decode token = Decoded.claims payload

abbrev granted_context : AuthContext
granted_context = record context { issued_at = aware 9 }

accepted :
    validate_token stamp (validate_signature decode "auth" "api") "abc" ≡ passed granted_context
unfolding validate_token validate_signature auth_context strip of_value
accepted = refl

abbrev space : Char
space = char 32 tt

blank : is_space (code space) ≡ true
unfolding is_space
blank = refl

no_blank : HasNoBlank "Bearer"
unfolding is_space
no_blank = (refl, (refl, (refl, (refl, (refl, (refl, tt))))))

no_blank_token : HasNoBlank "abc"
unfolding is_space
no_blank_token = (refl, (refl, (refl, tt)))

extract_bearer_example :
    extract_bearer_token ("Bearer" ++ String.◌∷◌ space "abc")
    ≡ (if is_bearer "Bearer" then passed "abc" else denied invalid_token)
extract_bearer_example = extract_bearer "Bearer" "abc" space no_blank no_blank_token refl refl blank

accepted_crashes_example :
    (require_authenticated answer 5 (some granted_context) ≡ crashed)
    × (require_policy answer 5 Policy.time_based (some request) (some granted_context)
        ≡ denied insufficient_permissions)
accepted_crashes_example =
    accepted_crashes stamp decode "auth" "api" "abc" granted_context accepted answer 5 request

served :
    serve
      (before_request stamp (validate_signature decode "auth" "api") "Bearer abc")
      (require_role answer (user ∷ []))
    ≡ answer
unfolding before_request require_role extract_bearer_token split is_space validate_token
    validate_signature auth_context strip of_value
served = refl

role_route_example :
    (token : String) × (c : AuthContext) × (fs : Fields) × (extract_bearer_token "Bearer abc"
      ≡ passed token)
    × (decode token ≡ Decoded.claims fs)
    × (get "iss" fs ≡ some (text "auth"))
    × (get "aud" fs ≡ some (text "api"))
    × IsContextOf fs c
    × (has_any_role (user ∷ []) c ≡ true)
    × (answer ≡ answer)
role_route_example =
    role_route stamp decode "auth" "api" "Bearer abc" answer (user ∷ []) "ok" served
