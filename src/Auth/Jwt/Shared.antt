-- ===== src/Auth/Jwt/Shared.antt =====
-- The access tokens of services/auth_service/src/infrastructure/security/jwt_service.py at
-- `validate_token` of shared/shared_auth/jwt_handler.py, which the other services guard their routes
-- with.
use ai_microservices.Base.Text.{truthy, strip}
use ai_microservices.Base.{
  ℕ, String, ◌≡◌, refl, ap, Bool, true, false, Option, some, List, [], ◌∷◌, none, if◌then◌else◌,
  ==_refl,
}
use ai_microservices.Base.Value.{Value, field, end, text, int}
use ai_microservices.Base.Int.{pos}
use ai_microservices.Auth.Users.{User}
use ai_microservices.Policy.Roles.{Role, from_list, AuthContext, aware}
use ai_microservices.Policy.Token.{
  Decoded, Outcome, claims, passed, denied, invalid_claims, validate_token, validate_signature,
  checked, auth_context, has_required_claims, with_roles, constructed,
}
use ai_microservices.Policy.Token as Token
use ai_microservices.Auth.Jwt.{
  access_to_claims_dict, token_type_access, texts, AccessTokenPayload, written, optional, truth,
}
use ai_microservices.Auth.Jwt.Service.{JwtSigningConfig, Jwt, build_access_payload}
use ai_microservices.Auth.Jwt.Lifetime.{session_text}
use ai_microservices.Auth.Jwt.RoundTrip.{others}

texts-texts : (ss : List String) → Token.texts (texts ss) ≡ ss
texts-texts [] = refl
texts-texts (s ∷ ss) = ap (λ ts. s ∷ ts) (texts-texts ss)

module _ (stamp : Value → Option ℕ) (jwt : Jwt) (c : JwtSigningConfig) (now : ℕ) (jti : String)
    (user : User) where
  abbrev pub payload : Option String → AccessTokenPayload
  payload session_id = build_access_payload jwt c now jti user session_id

  -- what a guarded route sees of the user
  abbrev pub context_of : ℕ → ℕ → List Role → String → AuthContext
  context_of issued expires roles session = record {
    user_id = user.id;
    roles = roles;
    session_id = session;
    issued_at = aware issued;
    expires_at = aware expires;
    jti = jti;
    email = some user.email;
    provider = some user.provider;
    extra_claims = field "token_type" (text token_type_access) end;
  }

  abbrev pub admitted : ℕ → ℕ → String → List Role → Outcome AuthContext
  admitted issued expires session [] = denied invalid_claims
  admitted issued expires session (r ∷ rs) = passed (context_of issued expires (r ∷ rs) session)

  required_claims-written :
      (o : Option String) (a b d : Bool)
      → has_required_claims (written (payload o) (others (payload o) a b d)) ≡ a
  required_claims-written o true true true = refl
  required_claims-written o true true false = refl
  required_claims-written o true false true = refl
  required_claims-written o true false false = refl
  required_claims-written o false true true = refl
  required_claims-written o false true false = refl
  required_claims-written o false false true = refl
  required_claims-written o false false false = refl

  auth_context-written :
      (s : String) (issued expires : ℕ) (rs : List Role) (b d : Bool)
      → stamp (int (pos now)) ≡ some issued
      → stamp (int (build_access_payload jwt c now jti user (some s)).exp) ≡ some expires
      → auth_context stamp (written (payload (some s)) (others (payload (some s)) true b d)) rs
        ≡ some (context_of issued expires rs s)
  unfolding auth_context
  auth_context-written s issued expires rs true true p q = simp (p, q)
  auth_context-written s issued expires rs true false p q = simp (p, q)
  auth_context-written s issued expires rs false true p q = simp (p, q)
  auth_context-written s issued expires rs false false p q = simp (p, q)

  -- the context, with the roles read
  with_roles-written :
      (s : String) (issued expires : ℕ) (rs : List Role) (b d : Bool)
      → stamp (int (pos now)) ≡ some issued
      → stamp (int (build_access_payload jwt c now jti user (some s)).exp) ≡ some expires
      → with_roles stamp (written (payload (some s)) (others (payload (some s)) true b d)) (some rs)
        ≡ admitted issued expires s rs
  with_roles-written s issued expires [] b d p q = refl
  with_roles-written s issued expires (r ∷ rs) b d p q =
      ap (constructed stamp) (auth_context-written s issued expires (r ∷ rs) b d p q)

  checked-written :
      (o : Option String) (issued expires : ℕ) (a b d : Bool)
      → truthy (session_text o) ≡ a
      → stamp (int (pos now)) ≡ some issued
      → stamp (int (build_access_payload jwt c now jti user o).exp) ≡ some expires
      → checked stamp (passed (claims (written (payload o) (others (payload o) a b d)))) ≡ (
          if a
          then admitted issued expires (session_text o) (from_list user.roles)
          else denied invalid_claims)
  checked-written o issued expires false b d h p q = simp (required_claims-written o false b d)
  checked-written none issued expires true b d h p q = cc
  checked-written (some s) issued expires true b d h p q =
      simp (texts-texts user.roles)
        (with_roles-written s issued expires (from_list user.roles) b d p q)

  truth-session : (o : Option String) → truthy (session_text o) ≡ truth (optional o)
  truth-session none = refl
  truth-session (some s) = refl

  blank-empty : (token : String) → truthy (strip token) ≡ true → truthy token ≡ true
  unfolding strip
  blank-empty String.[] h = cc
  blank-empty (String.◌∷◌ c s) h = refl

  -- An access token of the auth service that `decode` gives the claims of, with a text that is not
  -- blank, is accepted by `validate_token` of the shared handler exactly if it was issued for a session
  -- and its user holds one of the known roles. The context is then that user, with the known roles in
  -- order, that session and the token's two times; without a session or a known role the token is
  -- refused for its claims.
  pub access_token_context :
      (decode : String → Decoded) (token : String) (session_id : Option String) (issued expires : ℕ)
      → decode token ≡ claims (access_to_claims_dict (payload session_id))
      → truthy (strip token) ≡ true
      → stamp (int (pos now)) ≡ some issued
      → stamp (int (payload session_id).exp) ≡ some expires
      → validate_token stamp (validate_signature decode c.issuer c.audience) token ≡ (
          if truthy (session_text session_id)
          then admitted issued expires (session_text session_id) (from_list user.roles)
          else denied invalid_claims)
  unfolding validate_token validate_signature
  access_token_context decode token session_id issued expires e h p q =
      simp (e, h, blank-empty token h, ==_refl, validate_token, validate_signature, truth-session)
        (checked-written session_id issued expires _ _ _ (truth-session session_id) p q)
