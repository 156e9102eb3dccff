-- ===== src/Auth/Jwt/Refreshed.antt =====
-- `RefreshTokenUseCase` over the token service that container.py gives it: the tokens of a refresh.
use mathlib.Core.Path.{subst}
use ai_microservices.Base.{
  ℕ, ◌+◌, String, ◌≡◌, inl, inr, true, false, some, ltb, leb, if◌then◌else◌, Option-cases,
}
use ai_microservices.Base.Int.{pos}
use ai_microservices.Auth.Tokens.{RefreshToken, find_by_hash, is_revoked}
use ai_microservices.Auth.Tokens as Tokens
use ai_microservices.Auth.Users.{User, find_by_id}
use ai_microservices.Auth.Refresh.{
  Settings, Fresh, AuthState, done, refresh, renew, issue, TokenResponse,
}
use ai_microservices.Auth.Jwt.{access_to_claims_dict}
use ai_microservices.Auth.Jwt.Claims.{valid, refused, expired}
use ai_microservices.Auth.Jwt.Service.{
  Jwt, JwtSigningConfig, build_access_payload, issue_access_token, validate_access_token,
}
use ai_microservices.Auth.Jwt.Lifetime.{Honours, user_claims, access_token_lifetime}

-- the use case, whose token service is asked at `now`, in seconds, and draws `jti`
unfoldable pub with_service : Jwt → JwtSigningConfig → ℕ → String → Settings → Settings
with_service jwt c now jti settings = record settings {
  issue_access_token = λ user session_id. issue_access_token jwt c now jti user (some session_id);
}

-- A refresh that succeeds, of a token that is neither revoked nor expired, answers with an access
-- token that is accepted from then on for exactly the configured time, for the user of the refresh
-- token as stored, with the roles stored now, and in the session of the refresh token.
pub refreshed_token_accepted :
    (jwt : Jwt) (c : JwtSigningConfig) (settings : Settings) (now ttl clock : ℕ) (jti : String)
    (f : Fresh) (token : String) (s s' : AuthState) (stored : RefreshToken) (user : User)
    (response : TokenResponse)
    → find_by_hash (settings.hash token) s.tokens ≡ some stored
    → is_revoked stored ≡ false
    → Tokens.is_expired clock stored ≡ false
    → find_by_id stored.user_id s.users ≡ some user
    → user.active ≡ true
    → c.access_token_ttl_seconds ≡ pos ttl
    → leb (now + ttl) 253402300799 ≡ true
    → Honours jwt c
        (access_to_claims_dict (build_access_payload jwt c now jti user (some stored.session_id)))
        now
        (now + ttl)
    → refresh (with_service jwt c now jti settings) clock f token s ≡ (done response, s')
    → (later : ℕ) → leb now later ≡ true
    → validate_access_token jwt c later response.access_token ≡ (
        if ltb later (now + ttl)
        then valid (user_claims c now ttl jti user (some stored.session_id))
        else refused expired)
unfolding refresh with_service
refreshed_token_accepted jwt c settings now ttl clock jti f token s s' stored user response found
      fresh live known active lifetime year law h later after =
    elim (Option-cases (issue_access_token jwt c now jti user (some stored.session_id))) [
      | inl e ↦ cc (simp (refresh, renew, issue, found, fresh, live, known, active, e) at h)
      | inr (made, e) ↦
          let q = simp (refresh, renew, issue, found, fresh, live, known, active, e) at h in
          let r : made.0 ≡ response.access_token = cc q in
          subst
            (λ t. validate_access_token jwt c later t ≡ (
              if ltb later (now + ttl)
              then valid (user_claims c now ttl jti user (some stored.session_id))
              else refused expired))
            r
            (access_token_lifetime jwt c now ttl jti made.1 user (some stored.session_id) law
              lifetime year made.0 e later after).0
    ]
