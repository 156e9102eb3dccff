-- ===== src/Api/Middleware.antt =====
-- services/api_service/src/presentation/middleware/jwt_middleware.py: the hook that reads the token of
-- a request, and the decorators of the routes. `re` and the handler of tokens are arguments; an error
-- is given by its class, without its message.
pub mod Served
use ai_microservices.Base.{
  String, Bool, true, false, not, ◌&&◌, Option, none, some, List, [], ◌∷◌, if◌then◌else◌, any,
  contains, string_eq, map, ◌==◌, ◌*◌, nat_eq, pair_eq,
}
use ai_microservices.Base.Text.{truthy}
use ai_microservices.Base.Value.{
  Value, Fields, field, end, text, array, null, Items, nil, cons, get,
}
use ai_microservices.Policy.Roles.{AuthContext, value}
use ai_microservices.Policy.Token.{Outcome, passed, denied, crashed}
use ai_microservices.Propagation.{
  Context, Headers, set_request_context, token_of, or_else, or_absent,
}

pub data ApiError : Type 0 where
  unauthorized_error : ApiError
  forbidden_error : ApiError
  -- any other exception, which the app answers with 500
  internal_error : ApiError

pub data Reply (A : Type 0) : Type 0 where
  returned : A → Reply A
  raised : ApiError → Reply A

-- the attributes of Flask's `g` that the hook reads and sets
pub record Identity : Type 0 where
  pub correlation_id : Option String
  pub request_id : Option String
  pub user_id : Option String
  pub email : Option String
  pub roles : Option (List String)
  pub session_id : Option String
  pub jwt_claims : Option Fields
  pub bearer_token : Option String
  pub auth_context : Option AuthContext

-- `g`, and the context variables of the thread
pub record State : Type 0 where
  pub g : Identity
  pub variables : Context

abbrev pub default_exempt_paths : List String
default_exempt_paths =
    "^/health$" ∷ "^/health/.*" ∷ "^/apidocs/?" ∷ "^/apispec\\.json$" ∷ "^/flasgger_static/.*" ∷ []

-- `exempt_paths or _default_exempt_paths()`
abbrev pub exempt : Option (List String) → List String
exempt none = default_exempt_paths
exempt (some []) = default_exempt_paths
exempt (some (p ∷ ps)) = p ∷ ps

-- `_extract_bearer`
unfoldable pub extract_bearer : Headers → Option String
extract_bearer headers = or_else (token_of (or_absent (headers "Authorization"))) none

abbrev pub text_or_null : Option String → Value
text_or_null none = null
text_or_null (some s) = text s

abbrev pub items : List String → Items
items [] = nil
items (s ∷ ss) = cons (text s) (items ss)

-- `g.jwt_claims`: the extra claims have none of these keys
abbrev pub jwt_claims : AuthContext → Fields
jwt_claims c = field "sub" (text c.user_id) (
    field "email" (text_or_null c.email) (
      field "roles" (array (items (map value c.roles)))
        (field "session_id" (text c.session_id) (field "jti" (text c.jti) c.extra_claims))))

-- `extra_claims.get("token_type", "access") == "access"`
abbrev pub is_access : Option Value → Bool
is_access none = true
is_access (some (text s)) = s == "access"
is_access (some v) = false

abbrev pub identify : String → AuthContext → Identity → Identity
identify raw_token c g = record g {
  user_id = some c.user_id;
  email = c.email;
  roles = some (map value c.roles);
  session_id = some c.session_id;
  jwt_claims = some (jwt_claims c);
  bearer_token = some raw_token;
  auth_context = some c;
}

unfoldable pub populate : Headers → String → AuthContext → State → State
populate headers raw_token c s = record {
  g = identify raw_token c s.g;
  variables =
      set_request_context
        (record {
          correlation_id = s.g.correlation_id;
          request_id = s.g.request_id;
          user_id = some c.user_id;
          traceparent = headers "traceparent";
          bearer_token = some raw_token;
        })
        s.variables;
}

module _ (is_match : String → String → Bool) (validate_token : String → Outcome AuthContext) where
  abbrev pub is_exempt : Option (List String) → String → Bool
  is_exempt exempt_paths path = any (λ pattern. is_match pattern path) (exempt exempt_paths)

  abbrev pub accepted : Headers → String → Outcome AuthContext → State → Reply State
  accepted headers raw_token (denied e) s = raised unauthorized_error
  accepted headers raw_token crashed s = raised internal_error
  accepted headers raw_token (passed c) s =
      if not (is_access (get "token_type" c.extra_claims))
      then raised unauthorized_error
      else returned (populate headers raw_token c s)

  abbrev pub authenticate : Bool → Headers → Option String → State → Reply State
  authenticate required headers none s = if required then raised unauthorized_error else returned s
  authenticate required headers (some raw_token) s =
      accepted headers raw_token (validate_token raw_token) s

  -- `_jwt_before_request`, which is registered if `enabled`
  unfoldable pub jwt_before_request :
      Bool → Bool → Option (List String) → String → Headers → State → Reply State
  jwt_before_request enabled required exempt_paths path headers s =
      if not enabled
      then returned s
      else if is_exempt exempt_paths path
      then returned s
      else authenticate required headers (extract_bearer headers) s

abbrev pub known : Option String → Bool
known none = false
known (some user_id) = truthy user_id

-- `set(getattr(g, "roles", []) or [])`
abbrev pub held : Option (List String) → List String
held none = []
held (some roles) = roles

module _ {A : Type 0} (f : State → Reply A) where
  unfoldable pub require_auth : Bool → State → Reply A
  require_auth enabled s =
      if enabled && not (known s.g.user_id) then raised unauthorized_error else f s

  unfoldable pub require_role : List String → State → Reply A
  require_role roles s =
      if not (known s.g.user_id)
      then raised unauthorized_error
      else if not (any (λ role. contains (held s.g.roles) role) roles)
      then raised forbidden_error
      else f s

-- a request: the hook, then the decorated route
abbrev pub handle : {A : Type 0} → Reply State → (State → Reply A) → Reply A
handle (returned s) route = route s
handle (raised e) route = raised e
