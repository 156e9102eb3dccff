-- ===== src/Policy/Token.antt =====
-- shared/shared_auth/jwt_handler.py, with the errors of errors.py by class: an error's message and
-- details are left out. The library `jwt` is a parameter.
pub mod Checked
use ai_microservices.Base.{
  String, Bool, true, false, not, ◌&&◌, ◌||◌, Option, none, some, List, [], ◌∷◌, ◌==◌, string_eq,
  if◌then◌else◌, contains, filter, nat_eq, ℕ, ◌+◌, all, pair_eq,
}
use ai_microservices.Base.Text.{truthy, strip}
use ai_microservices.Base.Text.Split.{split}
use ai_microservices.Base.Value.{Value, Fields, end, field, text, array, object, Items, nil, cons}
use ai_microservices.Policy.Roles.{Role, from_list, AuthContext, Moment, aware}
use ai_microservices.Base.Value.{get}
use ai_microservices.Base.Maybe.{◌>>=◌}
use Prim.Native.Char.{Char, code}

pub data AuthorizationError : Type 0 where
  unauthorized : AuthorizationError
  insufficient_permissions : AuthorizationError
  token_expired : AuthorizationError
  invalid_token : AuthorizationError
  missing_token : AuthorizationError
  invalid_claims : AuthorizationError
  resource_ownership : AuthorizationError

abbrev pub status_code : AuthorizationError → ℕ
status_code insufficient_permissions = 403
status_code resource_ownership = 403
status_code _ = 401

-- `crashed` is an exception of another class, which Flask answers with 500.
pub data Outcome {ℓ} (A : Type ℓ) : Type ℓ where
  passed : A → Outcome A
  denied : AuthorizationError → Outcome A
  crashed : Outcome A

-- what `jwt.decode` gives: the claims, or an exception by its class
pub data Decoded : Type 0 where
  claims : Fields → Decoded
  expired_signature : Decoded
  invalid_signature : Decoded
  decode_error : Decoded
  invalid : Decoded

abbrev pub required_claims : List String
required_claims = "iss" ∷ "aud" ∷ "sub" ∷ "iat" ∷ "exp" ∷ "roles" ∷ "session_id" ∷ "jti" ∷ []

abbrev pub optional_claims : List String
optional_claims = "email" ∷ "provider" ∷ "display_name" ∷ "avatar_url" ∷ []

-- `key in claims`
abbrev pub has_claim : Fields → String → Bool
has_claim fs key = elim (get key fs) [ none ↦ false | some v ↦ true ]

abbrev pub has_required_claims : Fields → Bool
has_required_claims fs = all (has_claim fs) required_claims

-- the texts of a list: `Role.is_valid` holds for nothing else
abbrev pub texts : Items → List String
texts nil = []
texts (cons (text s) vs) = s ∷ texts vs
texts (cons v vs) = texts vs

abbrev keys : Fields → List String
keys end = []
keys (field k v fs) = k ∷ keys fs

-- `Role.from_list(role_strings)`: what can not be iterated raises TypeError
abbrev pub roles_of : Option Value → Option (List Role)
roles_of none = some []
roles_of (some (text s)) = some (from_list (s ∷ []))
roles_of (some (array vs)) = some (from_list (texts vs))
roles_of (some (object fs)) = some (from_list (keys fs))
roles_of (some v) = none

abbrev pub is_text : String → Option Value → Bool
is_text s (some (text t)) = t == s
is_text s _ = false

abbrev pub as_text : Option Value → Option String
as_text (some (text s)) = some s
as_text _ = none

-- `claims.get(key)`
abbrev pub optional_text : Option Value → Option (Option String)
optional_text none = some none
optional_text (some Value.null) = some none
optional_text (some (text s)) = some (some s)
optional_text (some v) = none

abbrev pub extra_claims : Fields → Fields
extra_claims end = end
extra_claims (field k v fs) =
    let rest = extra_claims fs in
    if contains required_claims k || contains optional_claims k then rest else field k v rest

abbrev pub trusted : String → String → Decoded → Outcome Decoded
trusted issuer audience (claims fs) =
    if not (is_text issuer (get "iss" fs))
    then denied invalid_token
    else if not (is_text audience (get "aud" fs))
    then denied invalid_token
    else passed (claims fs)
trusted issuer audience raised = passed raised

-- `HMACJWTHandler.validate_signature` and `RSAJWTHandler.validate_signature`
unfoldable pub validate_signature : (String → Decoded) → String → String → String → Outcome Decoded
validate_signature decode issuer audience token = trusted issuer audience (decode token)

-- `datetime.fromtimestamp(value, tz=timezone.utc)`: none where it raises ValueError or TypeError. The
-- OverflowError and the OSError of a time far out of range, which the handler does not catch, are left
-- out.
module _ (fromtimestamp : Value → Option ℕ) where
  abbrev pub moment : Option Value → Option Moment
  moment none = none
  moment (some v) = elim (fromtimestamp v) [ none ↦ none | some t ↦ some (aware t) ]

  -- none is the KeyError, the ValueError or the TypeError that the constructor's arguments raise; a
  -- claim that should be a text and is of another type counts as one
  unfoldable pub auth_context : Fields → List Role → Option AuthContext
  auth_context fs roles = do
    user_id ← as_text (get "sub" fs)
    session_id ← as_text (get "session_id" fs)
    issued_at ← moment (get "iat" fs)
    expires_at ← moment (get "exp" fs)
    jti ← as_text (get "jti" fs)
    email ← optional_text (get "email" fs)
    provider ← optional_text (get "provider" fs)
    some (record {
      user_id = user_id;
      roles = roles;
      session_id = session_id;
      issued_at = issued_at;
      expires_at = expires_at;
      jti = jti;
      email = email;
      provider = provider;
      extra_claims = extra_claims fs;
    })

  abbrev pub constructed : Option AuthContext → Outcome AuthContext
  constructed none = denied invalid_claims
  constructed (some c) = passed c

  abbrev pub with_roles : Fields → Option (List Role) → Outcome AuthContext
  with_roles fs none = denied invalid_claims
  with_roles fs (some []) = denied invalid_claims
  with_roles fs (some (r ∷ rs)) = constructed (auth_context fs (r ∷ rs))

  abbrev pub checked : Outcome Decoded → Outcome AuthContext
  checked crashed = crashed
  checked (denied e) = denied e
  checked (passed expired_signature) = denied token_expired
  checked (passed invalid_signature) = denied invalid_token
  checked (passed decode_error) = denied invalid_token
  checked (passed invalid) = denied invalid_token
  checked (passed (claims fs)) =
      if not (has_required_claims fs)
      then denied invalid_claims
      else with_roles fs (roles_of (get "roles" fs))

  unfoldable pub validate_token : (String → Outcome Decoded) → String → Outcome AuthContext
  validate_token signature token =
      if not (truthy token) || not (truthy (strip token))
      then denied missing_token
      else checked (signature token)

-- `s.lower() == "bearer"`: no other character has one of these letters as its lower case
abbrev letter : ℕ → Char → Bool
letter n c = code c == n || code c == n + 32

abbrev spells : List ℕ → String → Bool
spells [] String.[] = true
spells [] (String.◌∷◌ c s) = false
spells (n ∷ ns) String.[] = false
spells (n ∷ ns) (String.◌∷◌ c s) = letter n c && spells ns s

abbrev pub is_bearer : String → Bool
is_bearer = spells (66 ∷ 69 ∷ 65 ∷ 82 ∷ 69 ∷ 82 ∷ [])

abbrev bearer_of : List String → Outcome String
bearer_of (scheme ∷ token ∷ []) = if is_bearer scheme then passed token else denied invalid_token
bearer_of _ = denied invalid_token

unfoldable pub extract_bearer_token : String → Outcome String
extract_bearer_token auth_header =
    if not (truthy auth_header) then denied missing_token else bearer_of (split auth_header)
