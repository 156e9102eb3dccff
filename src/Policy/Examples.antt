-- ===== src/Policy/Examples.antt =====
-- The theorems of the policies at concrete roles, permissions and requests.
mod Requests
use ai_microservices.Base.Value.{Fields}
use ai_microservices.Base.{
  ◌≡◌, ◌↔◌, ◌⊎◌, true, false, ◌&&◌, ◌||◌, none, some, [], ◌∷◌, contains, ◌==◌, string_eq, nat_eq,
  pair_eq, String, List,
}
use ai_microservices.Policy.Roles.{
  user, worker, from_list, AuthContext, Permission, role_eq, permission_eq, has_role, has_all_roles,
  has_any_role, from_list-contains, value, aware,
}
use ai_microservices.Policy.Rules.{
  Request, Policy, Policies, Mode, has_required, require_role, user_or_admin, admin_only, is_empty,
  grant_permission, get_user_permissions, evaluate,
}
use ai_microservices.Policy.Rules.Algebra.{
  AllGrant, SomeGrants, has_required_lem, require_role_narrows, grant_permission_exact,
  composite_and_iff, composite_or_iff,
}

abbrev pub context : AuthContext
context = record {
  user_id = "u1";
  roles = user ∷ [];
  session_id = "s1";
  issued_at = aware 0;
  expires_at = aware 9;
  jti = "t";
  email = none;
  provider = none;
  extra_claims = Fields.end;
}

abbrev pub request : Request
request = record { resource_owner_id = some "u1"; required_permission = none }

abbrev policies : Policies
policies =
    Policies.with_policy (Policy.role_based admin_only)
      (Policies.with_policy (Policy.ownership true) Policies.none_added)

abbrev delete_job : Permission
delete_job = record { resource = "job"; action = "delete"; owner_required = false }

abbrev texts : List String
texts = "root" ∷ "user" ∷ []
