-- ===== src/Auth/Jwt/Claims.antt =====
-- services/auth_service/src/domain/value_objects/token_claims.py, less the class Email: the claims of a
-- token that was accepted, and the errors of a token that was not. A claim is what was read: any value.
use ai_microservices.Base.Int.{ltb_ℤ, ℤ, ◌*ℤ◌, pos, negsuc}
use ai_microservices.Base.Value.{Value, Items, text, nil, cons}
use ai_microservices.Base.{
  String, ℕ, Bool, false, ◌||◌, Option, none, some, List, ltb, if◌then◌else◌, any, nat_eq,
  string_eq, ◌==◌, pair_eq,
}

-- `TokenClaims`, with what a claim is as a value; `iat` and `exp` are seconds of UTC
pub record TokenClaims : Type 0 where
  pub sub : Value
  pub email : Value
  pub roles : Items
  pub provider : Value
  pub session_id : Value
  pub jti : Value
  pub iss : Value
  pub aud : Value
  pub iat : ℤ
  pub exp : ℤ
  pub token_type : Value
  pub display_name : Value
  pub avatar_url : Value

pub record RefreshTokenClaims : Type 0 where
  pub sub : Value
  pub session_id : Value
  pub jti : Value
  pub iss : Value
  pub aud : Value
  pub iat : ℤ
  pub exp : ℤ
  pub token_type : Value

-- `ExpiredTokenError`, `InvalidTokenError`, and an exception of another class
pub data TokenError : Type 0 where
  expired : TokenError
  invalid : TokenError
  crashed : TokenError

pub data Validated (A : Type 0) : Type 0 where
  valid : A → Validated A
  refused : TokenError → Validated A

abbrev pub is_text : String → Value → Bool
is_text s (text t) = s == t
is_text s v = false

-- `role in self.roles`
abbrev pub among : Items → String → Bool
among nil role = false
among (cons v vs) role = is_text role v || among vs role

abbrev pub has_role : String → TokenClaims → Bool
has_role role c = among c.roles role

unfoldable pub has_any_role : List String → TokenClaims → Bool
has_any_role roles c = any (among c.roles) roles

-- `now` is in microseconds
abbrev pub is_expired : ℕ → TokenClaims → Bool
is_expired now c = ltb_ℤ (c.exp *ℤ 1000000) (pos now)

-- `datetime.fromtimestamp`, for the years from 1 to 9999: none where it raises
abbrev pub fromtimestamp : ℤ → Option ℤ
fromtimestamp (pos n) = if ltb n 253402300800 then some (pos n) else none
fromtimestamp (negsuc n) = if ltb n 62135596800 then some (negsuc n) else none
