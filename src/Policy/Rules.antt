-- ===== src/Policy/Rules.antt =====
-- shared/shared_auth/policies.py. A set is a list without repetition. A policy that raises
-- PolicyEvaluationError, or TypeError where it compares times of two kinds, has the value none.
pub mod Algebra
use ai_microservices.Base.{
  ℕ, String, Bool, true, false, not, ◌&&◌, Option, none, some, List, [], ◌∷◌, if◌then◌else◌, ◌==◌,
  nat_eq, string_eq, pair_eq, contains, Eq,
}
use ai_microservices.Base.Dict.{Dict, lookup, insert}
use ai_microservices.Policy.Roles.{
  Role, admin, user, worker, role_eq, Permission, permission_eq, AuthContext, has_role,
  has_any_role, has_all_roles, is_admin, is_expired,
}

-- the keyword arguments that the policies read
pub record Request : Type 0 where
  pub resource_owner_id : Option String
  pub required_permission : Option Permission

module _ {ℓ} {A : Type ℓ} ⦃e : Eq A⦄ where
  -- `xs.add(x)`
  abbrev pub add : A → List A → List A
  add x xs = if contains xs x then xs else x ∷ xs

  -- `xs.update(ys)`
  abbrev pub update : List A → List A → List A
  update [] xs = xs
  update (y ∷ ys) xs = update ys (add y xs)

pub record RolePolicy : Type 0 where
  pub required_roles : List Role
  pub any_role : List Role
  pub all_roles : List Role

abbrev pub role_policy : RolePolicy
role_policy = record { required_roles = []; any_role = []; all_roles = [] }

unfoldable pub require_role : Role → RolePolicy → RolePolicy
require_role r p = record p { required_roles = add r p.required_roles }

unfoldable pub require_any_role : List Role → RolePolicy → RolePolicy
require_any_role rs p = record p { any_role = update rs p.any_role }

unfoldable pub require_all_roles : List Role → RolePolicy → RolePolicy
require_all_roles rs p = record p { all_roles = update rs p.all_roles }

abbrev pub is_empty {ℓ} : {A : Type ℓ} → List A → Bool
is_empty [] = true
is_empty (x ∷ xs) = false

-- `RoleBasedAuthorizationPolicy.evaluate`
unfoldable pub has_required : RolePolicy → AuthContext → Bool
has_required p c =
    if not (is_empty p.required_roles) && not (has_all_roles p.required_roles c)
    then false
    else if not (is_empty p.all_roles) && not (has_all_roles p.all_roles c)
    then false
    else if not (is_empty p.any_role) && not (has_any_role p.any_role c)
    then false
    else true

-- `ResourceOwnershipPolicy.evaluate`
abbrev pub owns : Bool → AuthContext → Option String → Option Bool
owns allow_admin_override c none = none
owns allow_admin_override c (some owner) =
    if allow_admin_override && is_admin c then some true else some (c.user_id == owner)

-- `self._role_permissions`
abbrev pub Grants : Type 0
Grants = Dict Role (List Permission)

abbrev pub granted : Role → Grants → List Permission
granted r g = elim (lookup r g) [ none ↦ [] | some ps ↦ ps ]

unfoldable pub grant_permission : Role → Permission → Grants → Grants
grant_permission r p g = insert r (add p (granted r g)) g

abbrev pub grant_permissions : Role → List Permission → Grants → Grants
grant_permissions r [] g = g
grant_permissions r (p ∷ ps) g = grant_permissions r ps (grant_permission r p g)

-- the loop of `get_user_permissions`
abbrev pub permissions_of : Grants → List Role → List Permission → List Permission
permissions_of g [] permissions = permissions
permissions_of g (r ∷ rs) permissions = permissions_of g rs (update (granted r g) permissions)

abbrev pub get_user_permissions : Grants → AuthContext → List Permission
get_user_permissions g c = permissions_of g c.roles []

-- `PermissionBasedPolicy.evaluate`
abbrev pub permits : Grants → AuthContext → Option Permission → Option Bool
permits g c none = none
permits g c (some p) = some (contains (get_user_permissions g c) p)

pub data Mode : Type 0 where
  and_mode : Mode
  or_mode : Mode

-- the classes of policies, a composite one with its list
mutual
  pub data Policy : Type 0 where
    role_based : RolePolicy → Policy
    ownership : Bool → Policy
    composite : Mode → Policies → Policy
    permission_based : Grants → Policy
    time_based : Policy

  pub data Policies : Type 0 where
    none_added : Policies
    with_policy : Policy → Policies → Policies

-- `CompositeAuthorizationPolicy.add`, at the end
abbrev pub add_policy : Policy → Policies → Policies
add_policy p none_added = with_policy p none_added
add_policy p (with_policy q qs) = with_policy q (add_policy p qs)

-- `not auth_context.is_expired`
abbrev in_time : Option Bool → Option Bool
in_time none = none
in_time (some b) = some (not b)

module _ (now : ℕ) (c : AuthContext) (q : Request) where
  unfoldable mutual
    pub evaluate : Policy → Option Bool
    evaluate (role_based p) = some (has_required p c)
    evaluate (ownership allow_admin_override) = owns allow_admin_override c q.resource_owner_id
    evaluate (composite m none_added) = some true
    evaluate (composite and_mode (with_policy p ps)) = evaluate_all (with_policy p ps)
    evaluate (composite or_mode (with_policy p ps)) = evaluate_any (with_policy p ps)
    evaluate (permission_based g) = permits g c q.required_permission
    evaluate time_based = in_time (is_expired now c)

    -- `all(...)` and `any(...)`: no policy is asked after the one that decides
    pub evaluate_all : Policies → Option Bool
    evaluate_all none_added = some true
    evaluate_all (with_policy p ps) = elim (evaluate p) [
      | none ↦ none
      | some b ↦ elim b [ true ↦ evaluate_all ps | false ↦ some false ]
    ]

    pub evaluate_any : Policies → Option Bool
    evaluate_any none_added = some false
    evaluate_any (with_policy p ps) = elim (evaluate p) [
      | none ↦ none
      | some b ↦ elim b [ true ↦ some true | false ↦ evaluate_any ps ]
    ]

-- `PolicyTemplates`
abbrev pub admin_only : RolePolicy
admin_only = require_role admin role_policy

abbrev pub authenticated_only : RolePolicy
authenticated_only = require_any_role (admin ∷ user ∷ worker ∷ []) role_policy

abbrev pub user_or_admin : RolePolicy
user_or_admin = require_any_role (admin ∷ user ∷ []) role_policy

abbrev pub service_to_service : RolePolicy
service_to_service = require_role worker role_policy
