-- ===== src/Policy/Guards/Routes.antt =====
-- Requests through the hook and the decorators of shared/shared_auth/middleware.py.
use mathlib.Core.Option.{some-injective}
use ai_microservices.Policy.Rules.{evaluate, Policy, Request}
use ai_microservices.Base.{
  ℕ, String, true, Option, none, some, List, string_eq, ◌≡◌, refl, Bool-cases, inl, inr, ◌≢◌, ◌↔◌,
  Bool, false, sym, ap, ◌⊎◌, ◌&&◌, eq_iff, nat_eq, ◌==◌, pair_eq,
}
use ai_microservices.Base.Text.{truthy}
use ai_microservices.Base.Value.{Value, Fields, get, text}
use ai_microservices.Policy.Roles.{is_admin, is_expired, Role, AuthContext, has_any_role}
use ai_microservices.Policy.Token.{
  Outcome, passed, denied, crashed, Decoded, validate_token, extract_bearer_token,
  validate_signature, insufficient_permissions,
}
use ai_microservices.Policy.Token.Checked.{IsContextOf, accepted_token}
use ai_microservices.Policy.Guards.{
  before_request, authenticated, injected, require_role, serve, require_authenticated,
  require_policy, assert_authorized, owned, resource, require_resource_ownership, owner_of,
}

module _ (fromtimestamp : Value → Option ℕ) (signature : String → Outcome Decoded) where
  injected_passed :
      (o : Outcome AuthContext) (c : AuthContext)
      → injected fromtimestamp signature o ≡ passed (some c)
      → o ≡ passed c
  injected_passed (passed d) c h = cc
  injected_passed (denied e) c h = cc
  injected_passed crashed c h = cc

  injected_never_none : (o : Outcome AuthContext) → injected fromtimestamp signature o ≢ passed none
  injected_never_none (passed d) h = cc
  injected_never_none (denied e) h = cc
  injected_never_none crashed h = cc

  authenticated_passed :
      (o : Outcome String) (c : AuthContext)
      → authenticated fromtimestamp signature o ≡ passed c
      → (token : String) × (o ≡ passed token)
        × (validate_token fromtimestamp signature token ≡ passed c)
  authenticated_passed (passed token) c h = (token, refl, h)
  authenticated_passed (denied e) c h = cc
  authenticated_passed crashed c h = cc

  -- the hook leaves a context only for a header with a token that is accepted
  before_request-some :
      (header : String) (c : AuthContext)
      → before_request fromtimestamp signature header ≡ passed (some c)
      → (token : String) × (extract_bearer_token header ≡ passed token)
        × (validate_token fromtimestamp signature token ≡ passed c)
  unfolding before_request
  before_request-some header c h = elim (Bool-cases (truthy header)) [
    | inl e ↦
        authenticated_passed (extract_bearer_token header) c
          (injected_passed _ c (simp (before_request, e) at h))
    | inr e ↦ cc (simp (before_request, e) at h)
  ]

  module _ {A : Type 0} (f : Outcome A) where
    role_checked :
        (roles : List Role) (o : Outcome (Option AuthContext)) (a : A)
        → serve o (require_role f roles) ≡ passed a
        → (c : AuthContext) × (o ≡ passed (some c)) × (has_any_role roles c ≡ true) × (f ≡ passed a)
    unfolding require_role
    role_checked roles crashed a h = cc
    role_checked roles (denied e) a h = cc
    role_checked roles (passed none) a h = cc
    role_checked roles (passed (some c)) a h = elim (Bool-cases (has_any_role roles c)) [
      | inl e ↦ (c, refl, e, simp (require_role, e) at h)
      | inr e ↦ cc (simp (require_role, e) at h)
    ]

-- A request passes a route that requires one of some roles only if its header carries a bearer
-- token that the library decodes to claims from the issuer, for the audience and with all those
-- required, whose roles include one of those named; and then the answer is the handler's.
pub role_route :
    (fromtimestamp : Value → Option ℕ) (decode : String → Decoded) (issuer audience header : String)
    → {A : Type 0} (f : Outcome A) (roles : List Role) (a : A)
    → serve
        (before_request fromtimestamp (validate_signature decode issuer audience) header)
        (require_role f roles)
      ≡ passed a
    → (token : String) × (c : AuthContext) × (fs : Fields) × (extract_bearer_token header
        ≡ passed token)
      × (decode token ≡ Decoded.claims fs)
      × (get "iss" fs ≡ some (text issuer))
      × (get "aud" fs ≡ some (text audience))
      × IsContextOf fs c
      × (has_any_role roles c ≡ true)
      × (f ≡ passed a)
role_route fromtimestamp decode issuer audience header f roles a h =
    let signature = validate_signature decode issuer audience in
    let (c, p, q, r) =
      role_checked fromtimestamp signature f roles (before_request fromtimestamp signature header) a
        h in
    let (token, x, v) = before_request-some fromtimestamp signature header c p in
    let (fs, d, i, u, k) = accepted_token fromtimestamp decode issuer audience token c v in
    (token, c, fs, x, d, i, u, k, q, r)

-- Every token that is accepted makes a route that requires authentication raise TypeError, and a
-- route with the time-based policy refuse, whatever the handler and at any time: the expiry of the
-- context has a time zone, and the present that it is compared with has none.
pub accepted_crashes :
    (fromtimestamp : Value → Option ℕ) (decode : String → Decoded) (issuer audience token : String)
    (c : AuthContext)
    → validate_token fromtimestamp (validate_signature decode issuer audience) token ≡ passed c
    → {A : Type 0} (f : Outcome A) (now : ℕ) (q : Request)
    → (require_authenticated f now (some c) ≡ crashed)
      × (require_policy f now Policy.time_based (some q) (some c) ≡ denied insufficient_permissions)
unfolding require_authenticated require_policy evaluate
accepted_crashes fromtimestamp decode issuer audience token c h f now q =
    let (fs, d, i, u, k) = accepted_token fromtimestamp decode issuer audience token c h in
    let e : is_expired now c ≡ none = simp (k.has_zone.1) in
    (simp (require_authenticated, e), simp (require_policy, evaluate, e))

module _ {A : Type 0} (a : A) (now : ℕ) (c : AuthContext) where
  decided : (o : Option Bool) → (assert_authorized (passed a) o ≡ passed a) ↔ (o ≡ some true)
  decided none = ((λ h. cc), (λ h. cc))
  decided (some true) = ((λ h. refl), (λ h. refl))
  decided (some false) = ((λ h. cc), (λ h. cc))

  -- A route with a policy answers as its handler exactly if the policy grants the request: where it
  -- refuses, where it raises and where its arguments can not be found, the request is refused.
  pub policy_route_iff :
      (policy : Policy) (resolved : Option Request)
      → (require_policy (passed a) now policy resolved (some c) ≡ passed a)
        ↔ ((q : Request) × (resolved ≡ some q) × (evaluate now c q policy ≡ some true))
  unfolding require_policy
  policy_route_iff policy none = ((λ h. cc), (λ h. cc h.1))
  policy_route_iff policy (some q) = (
    (λ h. (q, refl, (decided (evaluate now c q policy)).0 h)),
    (λ h. (decided (evaluate now c q policy)).1 (rw (some-injective _ _ h.1) h.2)),
  )

  owned_iff : (o : Option String) → (owned (passed a) c o ≡ passed a) ↔ (o ≡ some c.user_id)
  owned_iff none = ((λ h. cc), (λ h. cc))
  owned_iff (some owner) = elim (Bool-cases (c.user_id == owner)) [
    | inl e ↦ ((λ h. ap (λ z. some z) (sym ((eq_iff c.user_id owner).0 e))), (λ h. simp (owned, e)))
    | inr e ↦ (
      (λ h. cc (simp (owned, e) at h)),
      (λ h. let x = (eq_iff c.user_id owner).1 (sym (some-injective _ _ h)) in cc),
    )
  ]

  resource_iff :
      (g : Option (String → Option String)) (resource_id : Option String)
      → (resource (passed a) g c resource_id ≡ passed a) ↔ (
          (i : String) × (resource_id ≡ some i)
          × (truthy i ≡ true)
          × (owner_of (passed a) g i ≡ some c.user_id))
  resource_iff g none = ((λ h. cc), (λ h. cc h.1))
  resource_iff g (some i) = elim (Bool-cases (truthy i)) [
    | inl e ↦ (
      (λ h. (i, refl, e, (owned_iff (owner_of (passed a) g i)).0 (simp (resource, e) at h))),
      (λ h.
          simp (resource, e)
            ((owned_iff (owner_of (passed a) g i)).1 (rw (some-injective _ _ h.1) h.3))),
    )
    | inr e ↦ (
      (λ h. cc (simp (resource, e) at h)),
      (λ h. let x = some-injective _ _ h.1 in let y = h.2 in cc),
    )
  ]

  -- A route that requires ownership answers as its handler exactly for an administrator, where
  -- administrators are allowed, and for the user whom the getter names as the owner of the resource
  -- in the route's parameters, which is not empty; a getter that raises lets nobody else in.
  pub ownership_route_iff :
      (g : Option (String → Option String)) (allow_admin : Bool) (resource_id : Option String)
      → (require_resource_ownership (passed a) g allow_admin resource_id (some c) ≡ passed a) ↔ (
          ((allow_admin && is_admin c) ≡ true)
          ⊎ ((i : String) × (resource_id ≡ some i)
              × (truthy i ≡ true)
              × (owner_of (passed a) g i ≡ some c.user_id)))
  unfolding require_resource_ownership
  ownership_route_iff g allow_admin resource_id = elim (Bool-cases (allow_admin && is_admin c)) [
    | inl e ↦ ((λ h. inl e), (λ h. simp (require_resource_ownership, e)))
    | inr e ↦ (
      (λ h. inr ((resource_iff g resource_id).0 (simp (require_resource_ownership, e) at h))),
      (λ h.
          simp (require_resource_ownership, e)
            (elim h [ inl e' ↦ absurd cc | inr r ↦ (resource_iff g resource_id).1 r ])),
    )
  ]
