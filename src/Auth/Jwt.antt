-- ===== src/Auth/Jwt.antt =====
-- services/auth_service/src/domain/value_objects: token_payload.py, the claims of the JWTs. A claim
-- that is read from a token can be any value. `int` of a float and of a text are arguments.
pub mod RoundTrip
pub mod Claims
pub mod Service
pub mod Verify
pub mod Lifetime
pub mod Shared
pub mod Refreshed
use ai_microservices.Base.{
  String, Bool, true, false, Option, none, some, List, [], ◌∷◌, if◌then◌else◌, ℕ, ◌≡◌, refl, inl,
  inr, ◌||◌, Bool-cases, nat_eq, string_eq, ◌==◌, pair_eq, not,
}
use ai_microservices.Base.Int.{ℤ, pos, negsuc}
use ai_microservices.Base.Text.{truthy}
use ai_microservices.Base.Maybe.{◌>>=◌}
use ai_microservices.Base.Value.{
  Value, null, bool, int, float, text, date, array, object, Fields, end, field, Items, nil, cons,
  get,
}

abbrev pub token_type_access : String
token_type_access = "access"

abbrev pub token_type_refresh : String
token_type_refresh = "refresh"

-- `None` is the null of JSON
abbrev pub optional : Option String → Value
optional none = null
optional (some s) = text s

abbrev pub texts : List String → Items
texts [] = nil
texts (s ∷ ss) = cons (text s) (texts ss)

-- `bool(value)`; the bits of the two zeros are 0 and 2 ^ 63
abbrev pub truth : Value → Bool
truth null = false
truth (bool b) = b
truth (int (pos n)) = not (n == 0)
truth (int (negsuc n)) = true
truth (float b) = if b == 0 || b == 9223372036854775808 then false else true
truth (text s) = truthy s
truth (date t) = true
truth (array nil) = false
truth (array vs) = true
truth (object end) = false
truth (object fs) = true

-- `claims.get(key, default)`
abbrev pub get_or : String → Value → Fields → Value
get_or key default claims = elim (get key claims) [ none ↦ default | some v ↦ v ]

-- the characters of a text
abbrev chars : String → Items
chars String.[] = nil
chars (String.◌∷◌ c s) = cons (text (String.◌∷◌ c String.[])) (chars s)

abbrev keys : Fields → Items
keys end = nil
keys (field k v fs) = cons (text k) (keys fs)

-- `list(value)`: none is the TypeError
abbrev pub list_of : Value → Option Items
list_of (text s) = some (chars s)
list_of (array vs) = some vs
list_of (object fs) = some (keys fs)
list_of v = none

pub record AccessTokenPayload : Type 0 where
  pub sub : Value
  pub email : Value
  pub roles : Items
  pub provider : Value
  pub jti : Value
  pub iss : Value
  pub aud : Value
  pub iat : ℤ
  pub exp : ℤ
  pub token_type : Value
  pub session_id : Value
  pub display_name : Value
  pub avatar_url : Value

pub record RefreshTokenPayload : Type 0 where
  pub sub : Value
  pub session_id : Value
  pub jti : Value
  pub iss : Value
  pub aud : Value
  pub iat : ℤ
  pub exp : ℤ
  pub token_type : Value

-- `if value: claims[key] = value`, before the claims that are added later
abbrev pub claim_if : String → Value → Fields → Fields
claim_if key value later = if truth value then field key value later else later

-- the claims that are always there, before the others
abbrev pub written : AccessTokenPayload → Fields → Fields
written p others = field "sub" p.sub (
    field "email" p.email (
      field "roles" (array p.roles) (
        field "provider" p.provider (
          field "jti" p.jti (
            field "iss" p.iss (
              field "aud" p.aud (
                field "iat" (int p.iat)
                  (field "exp" (int p.exp) (field "token_type" p.token_type others)))))))))

abbrev pub access_to_claims_dict : AccessTokenPayload → Fields
access_to_claims_dict p = written p (
    claim_if "session_id" p.session_id
      (claim_if "display_name" p.display_name (claim_if "avatar_url" p.avatar_url end)))

abbrev pub refresh_to_claims_dict : RefreshTokenPayload → Fields
refresh_to_claims_dict p = field "sub" p.sub (
    field "session_id" p.session_id (
      field "jti" p.jti (
        field "iss" p.iss (
          field "aud" p.aud (
            field "iat" (int p.iat)
              (field "exp" (int p.exp) (field "token_type" p.token_type end)))))))

module _ (int_of_float : ℕ → Option ℤ) (int_of_text : String → Option ℤ) where
  -- `int(value)`: none is the TypeError, the ValueError or the OverflowError
  abbrev pub int_of : Value → Option ℤ
  int_of (bool b) = some (if b then pos 1 else pos 0)
  int_of (int z) = some z
  int_of (float b) = int_of_float b
  int_of (text s) = int_of_text s
  int_of v = none

  -- none is the KeyError or what `list` and `int` raise
  unfoldable pub access_from_claims_dict : Fields → Option AccessTokenPayload
  access_from_claims_dict claims = do
    sub ← get "sub" claims
    roles ← list_of (get_or "roles" (array nil) claims)
    jti ← get "jti" claims
    iat ← get "iat" claims >>= int_of
    exp ← get "exp" claims >>= int_of
    some (record {
      sub = sub;
      email = get_or "email" (text "") claims;
      roles = roles;
      provider = get_or "provider" (text "") claims;
      jti = jti;
      iss = get_or "iss" (text "") claims;
      aud = get_or "aud" (text "") claims;
      iat = iat;
      exp = exp;
      token_type = get_or "token_type" (text token_type_access) claims;
      session_id = get_or "session_id" null claims;
      display_name = get_or "display_name" null claims;
      avatar_url = get_or "avatar_url" null claims;
    })

  unfoldable pub refresh_from_claims_dict : Fields → Option RefreshTokenPayload
  refresh_from_claims_dict claims = do
    sub ← get "sub" claims
    session_id ← get "session_id" claims
    jti ← get "jti" claims
    iat ← get "iat" claims >>= int_of
    exp ← get "exp" claims >>= int_of
    some (record {
      sub = sub;
      session_id = session_id;
      jti = jti;
      iss = get_or "iss" (text "") claims;
      aud = get_or "aud" (text "") claims;
      iat = iat;
      exp = exp;
      token_type = get_or "token_type" (text token_type_refresh) claims;
    })
