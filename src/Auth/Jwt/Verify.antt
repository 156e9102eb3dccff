-- ===== src/Auth/Jwt/Verify.antt =====
-- services/auth_service/src: `issue_token_pair` of infrastructure/security/jwt_service.py and the class
-- ValidateTokenUseCase of application/use_cases/token_ops.py.
use ai_microservices.Auth.Users.{User}
use Prim.Native.String.{◌++◌}
use ai_microservices.Base.Int.{ℤ}
use ai_microservices.Base.Maybe.{◌>>=◌}
use ai_microservices.Base.Value.{Value, Items}
use ai_microservices.Base.{String, ℕ, Bool, true, false, Option, none, some, List}
use ai_microservices.Auth.Jwt.Service.{
  Jwt, JwtSigningConfig, validate_access_token, issue_access_token, issue_refresh_token,
}
use ai_microservices.Auth.Jwt.Claims.{Validated, valid, refused, TokenError, crashed, TokenClaims}

-- `IssuedTokenPair`
pub record IssuedTokenPair : Type 0 where
  pub access_token : String
  pub refresh_token : String
  pub access_jti : String
  pub refresh_jti : String
  pub access_expires_in : ℤ
  pub refresh_expires_in : ℤ

-- The clock is read twice, and two identifiers are made.
unfoldable pub issue_token_pair :
    Jwt → JwtSigningConfig → ℕ → ℕ → String → String → User → String → Option IssuedTokenPair
issue_token_pair jwt c now now' jti jti' user session_id = do
  access ← issue_access_token jwt c now jti user (some session_id)
  refresh ← issue_refresh_token jwt c now' jti' user session_id
  some (record {
    access_token = access.0;
    refresh_token = refresh.0;
    access_jti = access.1;
    refresh_jti = refresh.1;
    access_expires_in = c.access_token_ttl_seconds;
    refresh_expires_in = c.refresh_token_ttl_seconds;
  })

-- `TokenVerifyResponseDTO`, whose `error` is told by its class
pub record TokenVerifyResponse : Type 0 where
  pub valid : Bool
  pub user_id : Option String
  pub email : Option String
  pub roles : Option (List String)
  pub expires_at : Option String
  pub error : Option TokenError

abbrev pub not_verified : TokenError → TokenVerifyResponse
not_verified e = record {
  valid = false;
  user_id = none;
  email = none;
  roles = none;
  expires_at = none;
  error = some e;
}

-- what pydantic makes of the user, the email and the roles: none is its ValidationError
abbrev pub Reader : Type 0
Reader = Value → Value → Items → Option (Option String × Option String × List String)

abbrev verified_as :
    String → Option (Option String × Option String × List String) → TokenVerifyResponse
verified_as expires_at none = not_verified crashed
verified_as expires_at (some (user_id, email, roles)) = record {
  valid = true;
  user_id = user_id;
  email = email;
  roles = some roles;
  expires_at = some expires_at;
  error = none;
}

-- `isoformat` writes a time of UTC
abbrev pub verify_response : Reader → (ℤ → String) → Validated TokenClaims → TokenVerifyResponse
verify_response reader isoformat (valid c) =
    verified_as (isoformat c.exp ++ "Z") (reader c.sub c.email c.roles)
verify_response reader isoformat (refused e) = not_verified e

-- `ValidateTokenUseCase.execute`
unfoldable pub verify :
    Jwt → JwtSigningConfig → Reader → (ℤ → String) → ℕ → String → TokenVerifyResponse
verify jwt c reader isoformat now token =
    verify_response reader isoformat (validate_access_token jwt c now token)
