-- ===== src/Auth/Jwt/Service.antt =====
-- services/auth_service/src: infrastructure/security/jwt_service.py and
-- domain/value_objects/jwt_config.py. PyJWT is the argument `Jwt`; a time is a whole number of
-- seconds, to which `int` cuts the clock.
use ai_microservices.Auth.Jwt.Claims.{
  Validated, TokenClaims, RefreshTokenClaims, refused, fromtimestamp, crashed, valid, expired,
  is_text, invalid,
}
use ai_microservices.Base.Text.{truthy}
use ai_microservices.Base.{
  ℕ, suc, ◌+◌, ◌-◌, String, Bool, false, not, ◌&&◌, Option, none, some, List, [], ◌∷◌, ltb,
  if◌then◌else◌, nat_eq, string_eq, pair_eq, contains,
}
use ai_microservices.Base.Maybe.{◌>>=◌}
use ai_microservices.Base.Int.{ℤ, pos, negsuc, leb_ℤ}
use ai_microservices.Base.Value.{null, text, Fields}
use ai_microservices.Auth.Users.{User}
use ai_microservices.Policy.Token.{Decoded}
use ai_microservices.Policy.Token as Token
use ai_microservices.Auth.Jwt.{
  AccessTokenPayload, RefreshTokenPayload, token_type_access, token_type_refresh, optional, texts,
  truth, get_or, access_to_claims_dict, refresh_to_claims_dict, access_from_claims_dict,
  refresh_from_claims_dict,
}

pub record JwtSigningConfig : Type 0 where
  pub secret_key : String
  pub algorithm : String
  pub issuer : String
  pub audience : String
  pub access_token_ttl_seconds : ℤ
  pub refresh_token_ttl_seconds : ℤ

abbrev pub allowed_algorithms : List String
allowed_algorithms = "HS256" ∷ "HS384" ∷ "HS512" ∷ "RS256" ∷ "RS384" ∷ "RS512" ∷ []

abbrev pub min_secret_length : ℕ
min_secret_length = 32

abbrev pub chars_in : String → ℕ
chars_in String.[] = 0
chars_in (String.◌∷◌ c s) = 1 + chars_in s

-- `JwtSigningConfig.validate`: false is the ValueError. A service is built from a config that passes.
unfoldable pub validate : Bool → JwtSigningConfig → Bool
validate allow_dev_secret c =
    if not (contains allowed_algorithms c.algorithm)
    then false
    else if not (truthy c.secret_key)
    then false
    else if not allow_dev_secret && ltb (chars_in c.secret_key) min_secret_length
    then false
    else if leb_ℤ c.access_token_ttl_seconds (pos 0)
    then false
    else not (leb_ℤ c.refresh_token_ttl_seconds (pos 0))

-- `encode` has the claims, the key and the algorithm; `decode` the clock, the token, the key, the
-- algorithm, the audience, the issuer and the claims that are required. None is an exception, which
-- for `decode` is one that is no `InvalidTokenError`.
pub record Jwt : Type 0 where
  pub encode : Fields → String → String → Option String
  pub decode : ℕ → String → String → String → String → String → List String → Option Decoded
  pub int_of_float : ℕ → Option ℤ
  pub int_of_text : String → Option ℤ

abbrev pub required : List String
required = "exp" ∷ "iat" ∷ "sub" ∷ "jti" ∷ []

-- `now + timedelta(seconds=ttl)`
abbrev pub later_by : ℕ → ℤ → ℤ
later_by now (pos n) = pos (now + n)
later_by now (negsuc n) = if ltb n now then pos (now - suc n) else negsuc (n - now)

module _ (jwt : Jwt) (c : JwtSigningConfig) where
  -- `_decode_and_verify`
  abbrev verified : Option Decoded → Validated Fields
  verified none = refused crashed
  verified (some (Token.claims fs)) = valid fs
  verified (some Token.expired_signature) = refused expired
  verified (some e) = refused invalid

  unfoldable pub decode_and_verify : ℕ → String → Validated Fields
  decode_and_verify now token =
      verified (jwt.decode now token c.secret_key c.algorithm c.audience c.issuer required)

  -- `_build_access_payload`
  abbrev pub build_access_payload : ℕ → String → User → Option String → AccessTokenPayload
  build_access_payload now jti user session_id = record {
    sub = text user.id;
    email = text user.email;
    roles = texts user.roles;
    provider = text user.provider;
    jti = text jti;
    iss = text c.issuer;
    aud = text c.audience;
    iat = pos now;
    exp = later_by now c.access_token_ttl_seconds;
    token_type = text token_type_access;
    session_id = optional session_id;
    display_name = text user.display_name;
    avatar_url = optional user.avatar_url;
  }

  abbrev pub build_refresh_payload : ℕ → String → String → String → RefreshTokenPayload
  build_refresh_payload now jti user_id session_id = record {
    sub = text user_id;
    session_id = text session_id;
    jti = text jti;
    iss = text c.issuer;
    aud = text c.audience;
    iat = pos now;
    exp = later_by now c.refresh_token_ttl_seconds;
    token_type = text token_type_refresh;
  }

  abbrev pub with_jti : String → Option String → Option (String × String)
  with_jti jti none = none
  with_jti jti (some token) = some (token, jti)

  -- `issue_access_token` and `issue_refresh_token`: the token and the fresh `jti`
  unfoldable pub issue_access_token : ℕ → String → User → Option String → Option (String × String)
  issue_access_token now jti user session_id = with_jti jti (
      jwt.encode (access_to_claims_dict (build_access_payload now jti user session_id)) c.secret_key
        c.algorithm)

  unfoldable pub issue_refresh_token : ℕ → String → User → String → Option (String × String)
  issue_refresh_token now jti user session_id = with_jti jti (
      jwt.encode (refresh_to_claims_dict (build_refresh_payload now jti user.id session_id))
        c.secret_key c.algorithm)

  abbrev pub claims_of : AccessTokenPayload → ℤ → ℤ → TokenClaims
  claims_of typed iat exp = record {
    sub = typed.sub;
    email = typed.email;
    roles = typed.roles;
    provider = typed.provider;
    session_id = if truth typed.session_id then typed.session_id else text "";
    jti = typed.jti;
    iss = typed.iss;
    aud = typed.aud;
    iat = iat;
    exp = exp;
    token_type = typed.token_type;
    display_name = typed.display_name;
    avatar_url = typed.avatar_url;
  }

  abbrev pub refresh_claims_of : RefreshTokenPayload → ℤ → ℤ → RefreshTokenClaims
  refresh_claims_of typed iat exp = record {
    sub = typed.sub;
    session_id = typed.session_id;
    jti = typed.jti;
    iss = typed.iss;
    aud = typed.aud;
    iat = iat;
    exp = exp;
    token_type = typed.token_type;
  }

  -- the claims of a payload that is read, with its two times
  abbrev pub dated_access : AccessTokenPayload → Option TokenClaims
  dated_access typed = do
    iat ← fromtimestamp typed.iat
    exp ← fromtimestamp typed.exp
    some (claims_of typed iat exp)

  abbrev pub dated_refresh : RefreshTokenPayload → Option RefreshTokenClaims
  dated_refresh typed = do
    iat ← fromtimestamp typed.iat
    exp ← fromtimestamp typed.exp
    some (refresh_claims_of typed iat exp)

  abbrev pub or_crashed : {A : Type 0} → Option A → Validated A
  or_crashed none = refused crashed
  or_crashed (some a) = valid a

  abbrev pub access_of : Validated Fields → Validated TokenClaims
  access_of (refused e) = refused e
  access_of (valid fs) =
      if is_text token_type_access (get_or "token_type" (text token_type_access) fs)
      then or_crashed (access_from_claims_dict jwt.int_of_float jwt.int_of_text fs >>= dated_access)
      else refused invalid

  abbrev pub refresh_of : Validated Fields → Validated RefreshTokenClaims
  refresh_of (refused e) = refused e
  refresh_of (valid fs) =
      if is_text token_type_refresh (get_or "token_type" null fs)
      then or_crashed
          (refresh_from_claims_dict jwt.int_of_float jwt.int_of_text fs >>= dated_refresh)
      else refused invalid

  unfoldable pub validate_access_token : ℕ → String → Validated TokenClaims
  validate_access_token now token = access_of (decode_and_verify now token)

  unfoldable pub validate_refresh_token : ℕ → String → Validated RefreshTokenClaims
  validate_refresh_token now token = refresh_of (decode_and_verify now token)
