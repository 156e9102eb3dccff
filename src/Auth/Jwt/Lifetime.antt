-- ===== src/Auth/Jwt/Lifetime.antt =====
-- How long the tokens of infrastructure/security/jwt_service.py are accepted, and as what.
use mathlib.Core.Path.{subst}
use ai_microservices.Base.{
  ℕ, String, ◌≡◌, true, some, ltb, leb, if◌then◌else◌, ◌+◌, refl, ap, ◌∙◌, inl, inr, Option, none,
  arith, Bool-cases, sym, Option-cases, false, eq_iff,
}
use ai_microservices.Base.Value.{Value, Fields, text, null, get}
use ai_microservices.Base.Int.{pos}
use ai_microservices.Base.Maybe.{◌>>=◌}
use ai_microservices.Auth.Users.{User}
use ai_microservices.Policy.Token.{Decoded}
use ai_microservices.Policy.Token as Token
use ai_microservices.Auth.Jwt.{
  access_to_claims_dict, refresh_to_claims_dict, truth, optional, texts, token_type_access,
  token_type_refresh, get_or,
}
use ai_microservices.Auth.Jwt.RoundTrip.{or_none, access_read_back, refresh_read_back}
use ai_microservices.Auth.Jwt.Claims.{
  TokenClaims, RefreshTokenClaims, Validated, valid, refused, expired, invalid, is_text,
}
use ai_microservices.Auth.Jwt.Service.{
  Jwt, JwtSigningConfig, required, issue_access_token, issue_refresh_token, validate_access_token,
  validate_refresh_token, build_access_payload, build_refresh_payload, decode_and_verify, access_of,
  refresh_of, with_jti, dated_access, dated_refresh, or_crashed,
}

-- what PyJWT documents of a token that it signed: with the same key, audience and issuer the token
-- decodes to its claims before the time `exp`, and is refused as expired from then on
abbrev pub Honours : Jwt → JwtSigningConfig → Fields → ℕ → ℕ → Type 0
Honours jwt c fs iat exp =
    (token : String)
    → jwt.encode fs c.secret_key c.algorithm ≡ some token
    → (now : ℕ) → leb iat now ≡ true
    → jwt.decode now token c.secret_key c.algorithm c.audience c.issuer required
      ≡ some (if ltb now exp then Token.claims fs else Token.expired_signature)

-- the session of a request that may have none
abbrev pub session_text : Option String → String
session_text none = ""
session_text (some s) = s

-- what an access token says of a user
abbrev pub user_claims : JwtSigningConfig → ℕ → ℕ → String → User → Option String → TokenClaims
user_claims c now ttl jti user session_id = record {
  sub = text user.id;
  email = text user.email;
  roles = texts user.roles;
  provider = text user.provider;
  session_id = text (session_text session_id);
  jti = text jti;
  iss = text c.issuer;
  aud = text c.audience;
  iat = pos now;
  exp = pos (now + ttl);
  token_type = text token_type_access;
  display_name = or_none (text user.display_name);
  avatar_url = or_none (optional user.avatar_url);
}

abbrev pub session_claims : JwtSigningConfig → ℕ → ℕ → String → User → String → RefreshTokenClaims
session_claims c now ttl jti user session_id = record {
  sub = text user.id;
  session_id = text session_id;
  jti = text jti;
  iss = text c.issuer;
  aud = text c.audience;
  iat = pos now;
  exp = pos (now + ttl);
  token_type = text token_type_refresh;
}

or_none-session :
    (o : Option String)
    → (if truth (or_none (optional o)) then or_none (optional o) else text "")
      ≡ text (session_text o)
or_none-session none = refl
or_none-session (some String.[]) = refl
or_none-session (some (String.◌∷◌ c s)) = refl

before_year_10000 :
    (now ttl : ℕ)
    → leb (now + ttl) 253402300799 ≡ true
    → (ltb now 253402300800 ≡ true) × (ltb (now + ttl) 253402300800 ≡ true)
before_year_10000 now ttl h = (ground arith, ground arith)

module _ (jwt : Jwt) (c : JwtSigningConfig) where
  -- the token of claims that are signed, at a later time
  decode_signed :
      (fs : Fields) (iat exp : ℕ)
      → Honours jwt c fs iat exp
      → (token jti jti' : String)
      → with_jti jwt c jti' (jwt.encode fs c.secret_key c.algorithm) ≡ some (token, jti)
      → (later : ℕ) → leb iat later ≡ true
      → decode_and_verify jwt c later token ≡ (if ltb later exp then valid fs else refused expired)
  unfolding decode_and_verify
  decode_signed fs iat exp law token jti jti' made later after =
      elim (Option-cases (jwt.encode fs c.secret_key c.algorithm)) [
        | inl e ↦ cc (simp e at made)
        | inr (t, e) ↦
            let q : with_jti jwt c jti' (some t) ≡ some (token, jti) =
              ap (with_jti jwt c jti') (sym e) ∙ made in
            let p : t ≡ token = cc q in
            elim (Bool-cases (ltb later exp)) [
              | inl b ↦ simp (law token (e ∙ ap some p) later after, b)
              | inr b ↦ simp (law token (e ∙ ap some p) later after, b)
            ]
      ]

  access_of-signed :
      (now ttl : ℕ) (jti : String) (user : User) (session_id : Option String)
      → c.access_token_ttl_seconds ≡ pos ttl
      → leb (now + ttl) 253402300799 ≡ true
      → access_of jwt c
          (valid (access_to_claims_dict (build_access_payload jwt c now jti user session_id)))
        ≡ valid (user_claims c now ttl jti user session_id)
  access_of-signed now ttl jti user session_id e h =
      let (before, before') = before_year_10000 now ttl h in
      ap (λ o. or_crashed jwt c (o >>= dated_access jwt c))
        (access_read_back jwt.int_of_float jwt.int_of_text
          (build_access_payload jwt c now jti user session_id))
      ∙ simp (e, before, before', or_none-session session_id)

  -- An access token that was issued at `now` to live for `ttl` seconds, before the year 10000 ends, is
  -- accepted from then on for exactly `ttl` seconds, and says of the user what the user was, with the
  -- session or an empty text in place of none, and no display name or avatar where these are empty.
  -- After that it is refused as expired. As a refresh token it is never accepted.
  pub access_token_lifetime :
      (now ttl : ℕ) (jti jti' : String) (user : User) (session_id : Option String)
      → Honours jwt c
          (access_to_claims_dict (build_access_payload jwt c now jti user session_id))
          now
          (now + ttl)
      → c.access_token_ttl_seconds ≡ pos ttl
      → leb (now + ttl) 253402300799 ≡ true
      → (token : String) → issue_access_token jwt c now jti user session_id ≡ some (token, jti')
      → (later : ℕ) → leb now later ≡ true
      → (validate_access_token jwt c later token ≡ (
          if ltb later (now + ttl)
          then valid (user_claims c now ttl jti user session_id)
          else refused expired))
        × (validate_refresh_token jwt c later token
            ≡ refused (if ltb later (now + ttl) then invalid else expired))
  unfolding issue_access_token validate_access_token validate_refresh_token
  access_token_lifetime now ttl jti jti' user session_id law e h token made later after =
      let d = decode_signed _ now (now + ttl) law token jti' jti made later after in
      elim (Bool-cases (ltb later (now + ttl))) [
        | inl b ↦
            let d' : decode_and_verify jwt c later token
                ≡ valid
                    (access_to_claims_dict (build_access_payload jwt c now jti user session_id)) =
              d ∙ simp b in
            (
              ap (access_of jwt c) d' ∙ access_of-signed now ttl jti user session_id e h ∙ simp b,
              ap (refresh_of jwt c) d' ∙ simp b,
            )
        | inr b ↦ (simp (d, b), simp (d, b))
      ]

  -- A refresh token that was issued at `now` to live for `ttl` seconds, before the year 10000 ends, is
  -- accepted from then on for exactly `ttl` seconds, with its user and its session, and is refused as
  -- expired after that. As an access token it is never accepted.
  pub refresh_token_lifetime :
      (now ttl : ℕ) (jti jti' : String) (user : User) (session_id : String)
      → Honours jwt c
          (refresh_to_claims_dict (build_refresh_payload jwt c now jti user.id session_id))
          now
          (now + ttl)
      → c.refresh_token_ttl_seconds ≡ pos ttl
      → leb (now + ttl) 253402300799 ≡ true
      → (token : String) → issue_refresh_token jwt c now jti user session_id ≡ some (token, jti')
      → (later : ℕ) → leb now later ≡ true
      → (validate_refresh_token jwt c later token ≡ (
          if ltb later (now + ttl)
          then valid (session_claims c now ttl jti user session_id)
          else refused expired))
        × (validate_access_token jwt c later token
            ≡ refused (if ltb later (now + ttl) then invalid else expired))
  unfolding issue_refresh_token validate_access_token validate_refresh_token
  refresh_token_lifetime now ttl jti jti' user session_id law e h token made later after =
      let d = decode_signed _ now (now + ttl) law token jti' jti made later after in
      let (before, before') = before_year_10000 now ttl h in
      elim (Bool-cases (ltb later (now + ttl))) [
        | inl b ↦
            let d' : decode_and_verify jwt c later token
                ≡ valid (
                    refresh_to_claims_dict
                      (build_refresh_payload jwt c now jti user.id session_id)) =
              d ∙ simp b in
            (
              ap (refresh_of jwt c) d'
                  ∙ ap (λ o. or_crashed jwt c (o >>= dated_refresh jwt c))
                      (refresh_read_back jwt.int_of_float jwt.int_of_text
                        (build_refresh_payload jwt c now jti user.id session_id))
                  ∙ simp (e, before, before', b),
              ap (access_of jwt c) d' ∙ simp b,
            )
        | inr b ↦ (simp (d, b), simp (d, b))
      ]

  one_type :
      (o : Option Value)
      → is_text token_type_access (elim o [ none ↦ text token_type_access | some v ↦ v ]) ≡ true
      → is_text token_type_refresh (elim o [ none ↦ null | some v ↦ v ]) ≡ false
  one_type none p = refl
  one_type (some (text t)) p =
      subst (λ u. is_text token_type_refresh (text u) ≡ false) ((eq_iff token_type_access t).0 p)
        refl
  one_type (some v) p = cc

  -- No token, whoever made it, is accepted at one time both as an access token and as a refresh token.
  pub token_types_disjoint :
      (now : ℕ) (token : String) (a : TokenClaims) (r : RefreshTokenClaims)
      → validate_access_token jwt c now token ≡ valid a
      → ¬ (validate_refresh_token jwt c now token ≡ valid r)
  unfolding validate_access_token validate_refresh_token
  token_types_disjoint now token a r p q = disjoint (decode_and_verify jwt c now token) p q
    where
      disjoint :
          (d : Validated Fields) → access_of jwt c d ≡ valid a → ¬ (refresh_of jwt c d ≡ valid r)
      disjoint (refused e) p q = cc
      disjoint (valid fs) p q =
          elim (Bool-cases
            (is_text token_type_access (get_or "token_type" (text token_type_access) fs))) [
              | inl b ↦ cc (simp (one_type (get "token_type" fs) b) at q)
              | inr b ↦ cc (simp b at p)
            ]
