-- ===== src/Policy/Guards.antt =====
-- shared/shared_auth/middleware.py: the hook that runs before each request, and the decorators of
-- routes. A route is what its handler would answer, and a decorator may answer in its place.
pub mod Routes
use ai_microservices.Base.Value.{Value}
use ai_microservices.Base.{
  ℕ, String, Bool, true, false, not, ◌&&◌, Option, none, some, List, ◌==◌, string_eq, if◌then◌else◌,
  nat_eq, pair_eq,
}
use ai_microservices.Base.Text.{truthy}
use ai_microservices.Policy.Roles.{
  Role, AuthContext, is_expired, has_any_role, has_all_roles, is_admin,
}
use ai_microservices.Policy.Rules.{Policy, Request, evaluate}
use ai_microservices.Policy.Token.{
  AuthorizationError, unauthorized, insufficient_permissions, missing_token, resource_ownership,
  Outcome, passed, denied, crashed, Decoded, validate_token, extract_bearer_token,
}

module _ (fromtimestamp : Value → Option ℕ) (signature : String → Outcome Decoded) where
  -- the token of a header, validated
  abbrev pub authenticated : Outcome String → Outcome AuthContext
  authenticated (passed token) = validate_token fromtimestamp signature token
  authenticated (denied e) = denied e
  authenticated crashed = crashed

  -- what the hook leaves in `g.auth_context`, or raises
  abbrev injected : Outcome AuthContext → Outcome (Option AuthContext)
  injected (passed c) = passed (some c)
  injected (denied e) = denied e
  injected crashed = crashed

  -- `AuthorizationMiddleware.validate_token`
  unfoldable pub before_request : String → Outcome (Option AuthContext)
  before_request auth_header =
      if not (truthy auth_header)
      then passed none
      else injected (authenticated (extract_bearer_token auth_header))

module _ {A : Type 0} (f : Outcome A) where
  unfoldable pub require_authenticated : ℕ → Option AuthContext → Outcome A
  require_authenticated now none = denied missing_token
  require_authenticated now (some c) = elim (is_expired now c) [
    | none ↦ crashed
    | some b ↦ if b then denied unauthorized else f
  ]

  -- also `require_any_role`
  unfoldable pub require_role : List Role → Option AuthContext → Outcome A
  require_role roles none = denied missing_token
  require_role roles (some c) =
      if not (has_any_role roles c) then denied insufficient_permissions else f

  unfoldable pub require_all_roles : List Role → Option AuthContext → Outcome A
  require_all_roles roles none = denied missing_token
  require_all_roles roles (some c) =
      if not (has_all_roles roles c) then denied insufficient_permissions else f

  -- whatever else the checker raises becomes InsufficientPermissionsError
  abbrev permitted : Outcome Bool → Outcome A
  permitted (passed b) = if not b then denied insufficient_permissions else f
  permitted (denied e) = denied insufficient_permissions
  permitted crashed = denied insufficient_permissions

  unfoldable pub require_permission : (AuthContext → Outcome Bool) → Option AuthContext → Outcome A
  require_permission permission_checker none = denied missing_token
  require_permission permission_checker (some c) = permitted (permission_checker c)

  -- the owner, by `owner_id_getter` where there is one: it may raise
  abbrev pub owner_of : Option (String → Option String) → String → Option String
  owner_of none resource_id = some resource_id
  owner_of (some owner_id_getter) resource_id = owner_id_getter resource_id

  abbrev pub owned : AuthContext → Option String → Outcome A
  owned c none = denied insufficient_permissions
  owned c (some owner_id) = if not (c.user_id == owner_id) then denied resource_ownership else f

  abbrev pub resource : Option (String → Option String) → AuthContext → Option String → Outcome A
  resource owner_id_getter c none = denied insufficient_permissions
  resource owner_id_getter c (some resource_id) =
      if not (truthy resource_id)
      then denied insufficient_permissions
      else owned c (owner_of owner_id_getter resource_id)

  -- `resource_id` is `kwargs.get(resource_id_param)`
  unfoldable pub require_resource_ownership :
      Option (String → Option String) → Bool → Option String → Option AuthContext → Outcome A
  require_resource_ownership owner_id_getter allow_admin resource_id none = denied missing_token
  require_resource_ownership owner_id_getter allow_admin resource_id (some c) =
      if allow_admin && is_admin c then f else resource owner_id_getter c resource_id

  -- `policy.assert_authorized` and the handlers of what it raises
  abbrev pub assert_authorized : Option Bool → Outcome A
  assert_authorized none = denied insufficient_permissions
  assert_authorized (some b) = if not b then denied insufficient_permissions else f

  abbrev policed : ℕ → Policy → AuthContext → Option Request → Outcome A
  policed now policy c none = denied insufficient_permissions
  policed now policy c (some q) = assert_authorized (evaluate now c q policy)

  -- `resolved` is what the callables among the arguments give, and none where one of them raises
  unfoldable pub require_policy : ℕ → Policy → Option Request → Option AuthContext → Outcome A
  require_policy now policy resolved none = denied missing_token
  require_policy now policy resolved (some c) = policed now policy c resolved

abbrev pub assert_authenticated : Option AuthContext → Outcome AuthContext
assert_authenticated none = denied missing_token
assert_authenticated (some c) = passed c

-- a request: the hook, then the decorated route
abbrev pub serve :
    {A : Type 0} → Outcome (Option AuthContext) → (Option AuthContext → Outcome A) → Outcome A
serve (passed c) route = route c
serve (denied e) route = denied e
serve crashed route = crashed
