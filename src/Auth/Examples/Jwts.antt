-- ===== src/Auth/Examples/Jwts.antt =====
-- The access token of one user, in a library that knows that token alone.
use ai_microservices.Auth.Tokens.{save, create}
use ai_microservices.Policy.Token.{validate_token, validate_signature}
use ai_microservices.Base.Text.{strip, truthy}
use ai_microservices.Base.{
  ◌≡◌, refl, true, false, none, some, ltb, if◌then◌else◌, ℕ, Option, [], ◌∷◌,
}
use ai_microservices.Base.Value.{Value, Fields, int}
use ai_microservices.Base.Int.{pos}
use ai_microservices.Auth.Examples.{alice, settings, state, first, next}
use ai_microservices.Auth.Refresh.{Settings, TokenResponse, done, refresh}
use ai_microservices.Policy.Token as Token
use ai_microservices.Policy.Roles as Roles
use ai_microservices.Auth.Jwt.{
  access_to_claims_dict, AccessTokenPayload, RefreshTokenPayload, access_from_claims_dict,
  refresh_from_claims_dict, refresh_to_claims_dict,
}
use ai_microservices.Auth.Jwt.RoundTrip.{claims_dict_round_trip, without_empty}
use ai_microservices.Auth.Jwt.Claims.{valid, refused, invalid}
use ai_microservices.Auth.Jwt.Service.{
  Jwt, JwtSigningConfig, build_access_payload, build_refresh_payload, issue_access_token,
  validate_access_token, validate_refresh_token, validate, decode_and_verify,
}
use ai_microservices.Auth.Jwt.Lifetime.{
  Honours, user_claims, access_token_lifetime, token_types_disjoint, session_claims,
}
use ai_microservices.Auth.Jwt.Shared.{access_token_context, context_of}
use ai_microservices.Auth.Jwt.Refreshed.{refreshed_token_accepted, with_service}

abbrev config : JwtSigningConfig
config = record {
  secret_key = "0123456789abcdef0123456789abcdef";
  algorithm = "HS256";
  issuer = "auth";
  audience = "api";
  access_token_ttl_seconds = pos 900;
  refresh_token_ttl_seconds = pos 2592000;
}

config_valid : validate false config ≡ true
unfolding validate
config_valid = refl

abbrev silent : Jwt
silent = record {
  encode = λ fs key algorithm. some "jwt";
  decode = λ now token key algorithm audience issuer required. none;
  int_of_float = λ b. none;
  int_of_text = λ s. none;
}

abbrev signed : Fields
signed = access_to_claims_dict (build_access_payload silent config 100 "j" alice (some "s1"))

abbrev library : Jwt
library = record silent {
  decode = λ now token key algorithm audience issuer required.
      some (if ltb now 1000 then Token.claims signed else Token.expired_signature);
}

ink : truthy (strip "jwt") ≡ true
unfolding strip
ink = refl

library-Honours : Honours library config signed 100 1000
library-Honours token e now h = refl

access_token_lifetime_example :
    (validate_access_token library config 500 "jwt"
      ≡ valid (user_claims config 100 900 "j" alice (some "s1")))
    × (validate_refresh_token library config 500 "jwt" ≡ refused invalid)
unfolding issue_access_token
access_token_lifetime_example =
    access_token_lifetime library config 100 900 "j" "j" alice (some "s1") library-Honours refl refl
      "jwt" refl 500 refl

abbrev access_payload : AccessTokenPayload
access_payload = build_access_payload silent config 100 "j" alice none

abbrev refresh_payload : RefreshTokenPayload
refresh_payload = build_refresh_payload silent config 100 "j" "a" "s1"

claims_dict_round_trip_example :
    (access_from_claims_dict (λ b. none) (λ s. none) (access_to_claims_dict access_payload)
      ≡ some (without_empty access_payload))
    × (refresh_from_claims_dict (λ b. none) (λ s. none) (refresh_to_claims_dict refresh_payload)
        ≡ some refresh_payload)
claims_dict_round_trip_example =
    claims_dict_round_trip (λ b. none) (λ s. none) access_payload refresh_payload

accepted_at_500 :
    validate_access_token library config 500 "jwt"
    ≡ valid (user_claims config 100 900 "j" alice (some "s1"))
unfolding validate_access_token decode_and_verify access_from_claims_dict
accepted_at_500 = refl

token_types_disjoint_example : ¬ (
    validate_refresh_token library config 500 "jwt"
    ≡ valid (session_claims config 100 900 "j" alice "s1"))
token_types_disjoint_example =
    token_types_disjoint library config 500 "jwt" (user_claims config 100 900 "j" alice (some "s1"))
      (session_claims config 100 900 "j" alice "s1") accepted_at_500

abbrev stamp : Value → Option ℕ
stamp (int (pos n)) = some n
stamp v = none

access_token_context_example :
    validate_token stamp (validate_signature (λ token. Token.claims signed) "auth" "api") "jwt"
    ≡ Token.passed (context_of stamp silent config 100 "j" alice 100 1000 (Roles.user ∷ []) "s1")
unfolding Roles.of_value
access_token_context_example =
    access_token_context stamp silent config 100 "j" alice (λ token. Token.claims signed) "jwt"
      (some "s1") 100 1000 refl ink refl refl

abbrev refresh_settings : Settings
refresh_settings = with_service library config 100 "j" settings

abbrev response : TokenResponse
response = record { access_token = "jwt"; refresh_token = "raw2"; expires_in = 900 }

refreshed :
    refresh refresh_settings 5 next "raw1" state
    ≡ (done response, (refresh refresh_settings 5 next "raw1" state).1)
unfolding refresh with_service issue_access_token save create
refreshed = refl

refreshed_token_accepted_example :
    validate_access_token library config 500 "jwt"
    ≡ valid (user_claims config 100 900 "j" alice (some "s1"))
unfolding save create
refreshed_token_accepted_example =
    refreshed_token_accepted library config settings 100 900 5 "j" next "raw1" state
      (refresh refresh_settings 5 next "raw1" state).1 first alice response refl refl refl refl refl
      refl refl library-Honours refreshed 500 refl
