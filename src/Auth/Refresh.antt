-- ===== src/Auth/Refresh.antt =====
-- services/auth_service/src/application/use_cases: refresh_token.py and the class
-- RevokeTokenUseCase of token_ops.py. `hash`, the fresh texts and the signing of an access token
-- (PyJWT) are arguments; the clock is read once by a call.
pub mod Replay
use ai_microservices.Base.{ℕ, String, Bool, Option, none, some, List, [], ◌∷◌, ◌++◌, if◌then◌else◌}
use ai_microservices.Base.Text.{truthy}
use ai_microservices.Auth.Tokens.{
  RefreshToken, TokenStore, create, is_revoked, is_expired, mark_used, revoke, save, find_by_hash,
  revoke_session,
}
use ai_microservices.Auth.Users.{User, UserStore, find_by_id}

-- the exceptions of domain/exceptions/auth_errors.py that the use cases raise
pub data AuthError : Type 0 where
  revoked_token : AuthError
  token_family_compromised : String → AuthError
  expired_token : AuthError
  user_not_found : String → AuthError
  user_inactive : String → AuthError
  signing_error : AuthError
  oauth_state_mismatch : AuthError
  oauth_provider_error : AuthError
  -- the ValueError of the registry of providers
  provider_not_registered : AuthError

pub data AuthEvent : Type 0 where
  token_issued : String → String → AuthEvent
  user_logged_out : String → String → AuthEvent
  user_logged_in : String → String → AuthEvent

pub record TokenResponse : Type 0 where
  pub access_token : String
  pub refresh_token : String
  pub expires_in : ℕ

pub data Reply (A : Type 0) : Type 0 where
  done : A → Reply A
  raised : AuthError → Reply A

-- what the service was built with
pub record Settings : Type 0 where
  pub hash : String → String
  pub issue_access_token : User → String → Option (String × String)
  pub refresh_ttl_days : ℕ
  pub expires_in : ℕ
  -- an event that the publisher refuses is logged and dropped
  pub accepts : AuthEvent → Bool

-- what `secrets` and `uuid` return to a call
pub record Fresh : Type 0 where
  pub raw_token : String
  pub id : String

pub record AuthState : Type 0 where
  pub tokens : TokenStore
  pub users : UserStore
  pub events : List AuthEvent

abbrev pub publish : Settings → AuthEvent → AuthState → AuthState
publish c e s = if c.accepts e then record s { events = s.events ++ (e ∷ []) } else s

abbrev pub replacement : Settings → ℕ → Fresh → User → RefreshToken → RefreshToken
replacement c now f user stored =
    create now f.id (c.hash f.raw_token) user.id stored.session_id c.refresh_ttl_days

abbrev pub rotated : ℕ → String → RefreshToken → RefreshToken
rotated now new_id stored = revoke now "rotated" (mark_used now new_id stored)

-- the two saves of a rotation
abbrev pub rotate : Settings → ℕ → Fresh → User → RefreshToken → TokenStore → TokenStore
rotate c now f user stored store =
    save (rotated now f.id stored) (save (replacement c now f user stored) store)

-- the end of `execute`, with the tokens rotated
abbrev pub issue : Settings → Fresh → User → String → AuthState → Reply TokenResponse × AuthState
issue c f user session_id s = elim (c.issue_access_token user session_id) [
  | none ↦ (raised signing_error, s)
  | some (access_token, jti) ↦ (
    done (record {
      access_token = access_token;
      refresh_token = f.raw_token;
      expires_in = c.expires_in;
    }),
    publish c (token_issued user.id jti) s,
  )
]

abbrev pub renew : Settings → ℕ → Fresh → RefreshToken → AuthState → Reply TokenResponse × AuthState
renew c now f stored s = elim (find_by_id stored.user_id s.users) [
  | none ↦ (raised (user_not_found stored.user_id), s)
  | some user ↦
      if user.active
      then issue c f user stored.session_id
          (record s { tokens = rotate c now f user stored s.tokens })
      else (raised (user_inactive user.id), s)
]

-- `RefreshTokenUseCase.execute`
unfoldable pub refresh : Settings → ℕ → Fresh → String → AuthState → Reply TokenResponse × AuthState
refresh c now f token s = elim (find_by_hash (c.hash token) s.tokens) [
  | none ↦ (raised revoked_token, s)
  | some stored ↦
      if is_revoked stored
      then (
        raised (token_family_compromised stored.session_id),
        record s { tokens = revoke_session now stored.session_id "compromised_reuse" s.tokens },
      )
      else if is_expired now stored
      then (raised expired_token, s)
      else renew c now f stored s
]

-- `request.reason or "user_logout"`
abbrev reason_or_default : Option String → String
reason_or_default none = "user_logout"
reason_or_default (some reason) = if truthy reason then reason else "user_logout"

-- `RevokeTokenUseCase.execute`
unfoldable pub logout : Settings → ℕ → String → Option String → AuthState → AuthState
logout c now token reason s = elim (find_by_hash (c.hash token) s.tokens) [
  | none ↦ s
  | some stored ↦
      if is_revoked stored
      then s
      else publish c (user_logged_out stored.user_id stored.session_id) (record s {
        tokens = revoke_session now stored.session_id (reason_or_default reason) s.tokens;
      })
]
