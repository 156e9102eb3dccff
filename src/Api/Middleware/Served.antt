-- ===== src/Api/Middleware/Served.antt =====
-- Which requests the guarded routes of the api-service serve.
use ai_microservices.Base.{
  ℕ, String, Bool, true, false, Option, none, some, List, ◌≡◌, refl, sym, ap, Bool-cases, inl, inr,
  any, contains, map, ◌||◌, ◌==◌, string_eq, ◌⊎◌, nat_eq, pair_eq, ◌∙◌, eq_iff,
}
use ai_microservices.Base.Value.{Value, Fields, field, end, get, text}
use ai_microservices.Policy.Roles.{AuthContext, value}
use ai_microservices.Policy.Token.{
  Outcome, passed, denied, crashed, Decoded, claims, validate_token, validate_signature,
  extra_claims, required_claims, optional_claims,
}
use ai_microservices.Policy.Token.Checked.{IsContextOf, accepted_token}
use ai_microservices.Propagation.{Headers}
use ai_microservices.Api.Middleware.{
  State, Reply, returned, raised, extract_bearer, is_access, populate, is_exempt, accepted,
  authenticate, jwt_before_request, known, held, require_role, handle,
}

abbrev is_known : String → Bool
is_known key = contains required_claims key || contains optional_claims key

-- a claim that is neither required nor optional is an extra one
get-extra_claims :
    (key : String) (fs : Fields) → is_known key ≡ false → get key (extra_claims fs) ≡ get key fs
get-extra_claims key end h = refl
get-extra_claims key (field k v fs) h = elim (Bool-cases (is_known k)) [
  | inr n ↦ elim (Bool-cases (k == key)) [
    | inl e ↦ simp (n, e)
    | inr e ↦ simp (n, e) (get-extra_claims key fs h)
  ]
  | inl n ↦ elim (Bool-cases (k == key)) [
    | inl e ↦ cc (sym n ∙ ap is_known ((eq_iff k key).0 e) ∙ h)
    | inr e ↦ simp (n, e) (get-extra_claims key fs h)
  ]
]

access_type : (o : Option Value) → is_access o ≡ true → (o ≡ none) ⊎ (o ≡ some (text "access"))
access_type none h = inl refl
access_type (some (text s)) h = inr (ap (λ z. some (text z)) ((eq_iff s "access").0 h))
access_type (some Value.null) h = cc
access_type (some (Value.bool b)) h = cc
access_type (some (Value.int n)) h = cc
access_type (some (Value.float n)) h = cc
access_type (some (Value.date n)) h = cc
access_type (some (Value.array vs)) h = cc
access_type (some (Value.object fs)) h = cc

module _ {A : Type 0} (f : State → Reply A) where
  role_passed :
      (roles : List String) (s : State) (a : A)
      → require_role f roles s ≡ returned a
      → (known s.g.user_id ≡ true)
        × (any (λ role. contains (held s.g.roles) role) roles ≡ true)
        × (f s ≡ returned a)
  unfolding require_role
  role_passed roles s a h = elim (Bool-cases (known s.g.user_id)) [
    | inr e ↦ cc (simp (require_role, e) at h)
    | inl e ↦ elim (Bool-cases (any (λ role. contains (held s.g.roles) role) roles)) [
      | inr q ↦ cc (simp (require_role, e, q) at h)
      | inl q ↦ (e, q, simp (require_role, e, q) at h)
    ]
  ]

module _ (is_match : String → String → Bool) (validate : String → Outcome AuthContext)
    (headers : Headers) (s : State) where
  -- what the hook leaves where it raises nothing: nothing, or a user of an access token
  abbrev pub Identified : State → Type 0
  Identified s' =
      (raw_token : String) × (c : AuthContext) × (extract_bearer headers ≡ some raw_token)
      × (validate raw_token ≡ passed c)
      × (is_access (get "token_type" c.extra_claims) ≡ true)
      × (s' ≡ populate headers raw_token c s)

  accepted_returned :
      (raw_token : String) (o : Outcome AuthContext) (s' : State)
      → accepted is_match validate headers raw_token o s ≡ returned s'
      → (c : AuthContext) × (o ≡ passed c)
        × (is_access (get "token_type" c.extra_claims) ≡ true)
        × (s' ≡ populate headers raw_token c s)
  accepted_returned raw_token (denied e) s' h = cc
  accepted_returned raw_token crashed s' h = cc
  accepted_returned raw_token (passed c) s' h =
      elim (Bool-cases (is_access (get "token_type" c.extra_claims))) [
        | inr e ↦ cc (simp (accepted, e) at h)
        | inl e ↦ (c, refl, e, cc (simp (accepted, e) at h))
      ]

  authenticate_returned :
      (required : Bool) (o : Option String) (s' : State)
      → extract_bearer headers ≡ o
      → authenticate is_match validate required headers o s ≡ returned s'
      → (s' ≡ s) ⊎ Identified s'
  authenticate_returned required none s' e h = elim (Bool-cases required) [
    | inl q ↦ cc (simp (authenticate, q) at h)
    | inr q ↦ inl (cc (simp (authenticate, q) at h))
  ]
  authenticate_returned required (some raw_token) s' e h =
      let (c, p, q, r) = accepted_returned raw_token (validate raw_token) s' h in
      inr (raw_token, c, e, p, q, r)

  jwt_before_request_returned :
      (enabled required : Bool) (exempt_paths : Option (List String)) (path : String) (s' : State)
      → jwt_before_request is_match validate enabled required exempt_paths path headers s
        ≡ returned s'
      → (s' ≡ s) ⊎ Identified s'
  unfolding jwt_before_request
  jwt_before_request_returned enabled required exempt_paths path s' h = elim (Bool-cases enabled) [
    | inr e ↦ inl (cc (simp (jwt_before_request, e) at h))
    | inl e ↦ elim (Bool-cases (is_exempt is_match validate exempt_paths path)) [
      | inl q ↦ inl (cc (simp (jwt_before_request, e, q) at h))
      | inr q ↦
          authenticate_returned required (extract_bearer headers) s' refl
            (simp (jwt_before_request, e, q) at h)
    ]
  ]

module _ {A : Type 0} (f : State → Reply A) where
  handle_returned :
      (r : Reply State) (route : State → Reply A) (a : A)
      → handle r route ≡ returned a
      → (s : State) × (r ≡ returned s) × (route s ≡ returned a)
  handle_returned (returned s) route a h = (s, refl, h)
  handle_returned (raised e) route a h = cc

-- A request that a route for some roles answers, where nobody is known before the hook, has a bearer
-- token, which the library decodes to claims of the issuer and for the audience; they have all that is
-- required, and their type, if they name one, is that of an access token. The route sees the user
-- that the claims name, and their roles have one that the route asks for.
pub role_served :
    {A : Type 0} (f : State → Reply A) (is_match : String → String → Bool)
    (stamp : Value → Option ℕ) (decode : String → Decoded) (issuer audience : String)
    (enabled required : Bool) (exempt_paths : Option (List String)) (path : String)
    (headers : Headers) (roles : List String) (s : State) (a : A)
    → s.g.user_id ≡ none
    → handle
        (jwt_before_request is_match
          (validate_token stamp (validate_signature decode issuer audience))
          enabled
          required
          exempt_paths
          path
          headers
          s)
        (require_role f roles)
      ≡ returned a
    → (raw_token : String) × (fs : Fields) × (c : AuthContext) × (extract_bearer headers
        ≡ some raw_token)
      × (decode raw_token ≡ claims fs)
      × (get "iss" fs ≡ some (text issuer))
      × (get "aud" fs ≡ some (text audience))
      × IsContextOf fs c
      × ((get "token_type" fs ≡ none) ⊎ (get "token_type" fs ≡ some (text "access")))
      × (any (λ role. contains (map value c.roles) role) roles ≡ true)
      × (f (populate headers raw_token c s) ≡ returned a)
unfolding populate
role_served f is_match stamp decode issuer audience enabled required exempt_paths path headers roles
      s a u h =
    let (s', p, q) = handle_returned f _ (require_role f roles) a h in
    let (k, r, e) = role_passed f roles s' a q in
    elim (jwt_before_request_returned is_match _ headers s enabled required exempt_paths path s'
      p) [
        | inl same ↦ cc (sym k ∙ ap (λ z. known z.g.user_id) same ∙ ap known u)
        | inr (raw_token, c, b, v, t, same) ↦
            let (fs, d, i, o, x) = accepted_token stamp decode issuer audience raw_token c v in
            (
              raw_token,
              fs,
              c,
              b,
              d,
              i,
              o,
              x,
              access_type (get "token_type" fs) (
                  sym (
                    ap is_access
                      (ap (get "token_type") x.extra_are ∙ get-extra_claims "token_type" fs refl))
                  ∙ t),
              sym (ap (λ z. any (λ role. contains (held z.g.roles) role) roles) same) ∙ r,
              sym (ap f same) ∙ e,
            )
      ]
