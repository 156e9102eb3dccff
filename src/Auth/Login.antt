-- ===== src/Auth/Login.antt =====
-- services/auth_service/src: application/use_cases/oauth_login.py, the store of states in
-- infrastructure/security/oauth_state_store.py, and `complete_oauth` of
-- presentation/routes/v1/auth/service.py. The providers are arguments; the clock
-- is read once by a call.
pub mod States
pub mod Outcome
use ai_microservices.Base.{
  ℕ, ◌+◌, String, Bool, true, not, ◌||◌, Option, none, some, [], ◌∷◌, if◌then◌else◌, ◌==◌,
  string_eq, leb, nat_eq, pair_eq,
}
use ai_microservices.Base.Dict.{Dict, lookup, insert, erase}
use ai_microservices.Base.Text.{truthy}
use ai_microservices.Auth.Tokens.{create}
use ai_microservices.Auth.Tokens as Tokens
use ai_microservices.Auth.Users.{User, UserStore, find_by_provider}
use ai_microservices.Auth.Users as Users
use ai_microservices.Auth.Refresh.{
  AuthError, oauth_state_mismatch, oauth_provider_error, provider_not_registered, user_inactive,
  signing_error, AuthEvent, user_logged_in, token_issued, TokenResponse, Reply, done, raised,
  Settings, AuthState, publish,
}

pub record OAuthStateEntry : Type 0 where
  pub state : String
  pub code_challenge : String
  pub code_verifier : String
  pub provider : String
  pub redirect_uri : Option String
  pub expires_at : ℕ

abbrev pub States : Type 0
States = Dict String OAuthStateEntry

-- `InMemoryOAuthStateStore.save`, of an entry that lives for `ttl` microseconds
unfoldable pub save_state :
    ℕ → ℕ → String → String → String → String → Option String → States → States
save_state ttl now state code_challenge code_verifier provider redirect_uri d =
    insert state
      (record {
        state = state;
        code_challenge = code_challenge;
        code_verifier = code_verifier;
        provider = provider;
        redirect_uri = redirect_uri;
        expires_at = now + ttl;
      })
      d

abbrev pub live : ℕ → Option OAuthStateEntry → Option OAuthStateEntry
live now none = none
live now (some entry) = if leb entry.expires_at now then none else some entry

unfoldable pub consume : ℕ → String → States → Option OAuthStateEntry × States
consume now state d = (live now (lookup state d), erase state d)

-- what a provider says of a user
pub record UserInfo : Type 0 where
  pub provider_user_id : String
  pub email : String
  pub display_name : Option String
  pub avatar_url : Option String

-- `exchange_code` has the code, the state and the verifier, and gives none where it raises
pub record Provider : Type 0 where
  pub name : String
  pub exchange_code : String → String → String → Option UserInfo

-- what `uuid4` and `secrets` return to a login
pub record LoginFresh : Type 0 where
  pub user_id : String
  pub session_id : String
  pub token_id : String
  pub raw_token : String

abbrev display_name_of : UserInfo → String
display_name_of info = elim info.display_name [ none ↦ info.email | some name ↦ name ]

-- `User.create` with the arguments that the login passes
abbrev pub new_user : ℕ → String → String → UserInfo → User
new_user now id provider_name info = record {
  id = id;
  provider = provider_name;
  provider_user_id = info.provider_user_id;
  email = info.email;
  display_name = display_name_of info;
  roles = "user" ∷ [];
  active = true;
  created_at = now;
  last_login_at = some now;
  avatar_url = info.avatar_url;
  username = none;
  password_hash = none;
}

abbrev pub record_login : ℕ → User → User
record_login now user = record user { last_login_at = some now }

module _ (c : Settings) (lower : String → String) where
  -- `_resolve_user`
  abbrev pub resolve_user : ℕ → LoginFresh → String → UserInfo → UserStore → Reply User × UserStore
  resolve_user now f provider_name info users =
      elim (find_by_provider provider_name info.provider_user_id users) [
        | none ↦
            let user = new_user now f.user_id provider_name info in
            (done user, Users.save lower user users)
        | some user ↦
            if user.active
            then (done (record_login now user), Users.save lower (record_login now user) users)
            else (raised (user_inactive user.id), users)
      ]

  -- `_publish_events`: both in one `try`
  abbrev pub publish_events : User → String → String → AuthState → AuthState
  publish_events user session_id jti s =
      if c.accepts (user_logged_in user.id session_id)
      then publish c (token_issued user.id jti) (publish c (user_logged_in user.id session_id) s)
      else s

  abbrev pub issue_tokens : ℕ → LoginFresh → ℕ → User → AuthState → Reply TokenResponse × AuthState
  issue_tokens now f expires_in user s = elim (c.issue_access_token user f.session_id) [
    | none ↦ (raised signing_error, s)
    | some (access_token, jti) ↦ (
      done (record {
        access_token = access_token;
        refresh_token = f.raw_token;
        expires_in = expires_in;
      }),
      publish_events user f.session_id jti (record s {
        tokens =
            Tokens.save
              (create now f.token_id (c.hash f.raw_token) user.id f.session_id c.refresh_ttl_days)
              s.tokens;
      }),
    )
  ]

  abbrev pub signed_in :
      ℕ → LoginFresh → ℕ → AuthState → Reply User × UserStore → Reply TokenResponse × AuthState
  signed_in now f expires_in s (raised e, users) = (raised e, record s { users = users })
  signed_in now f expires_in s (done user, users) =
      issue_tokens now f expires_in user (record s { users = users })

  -- `OAuthLoginUseCase.execute`
  unfoldable pub execute :
      ℕ
      → LoginFresh
      → Provider
      → String
      → String
      → String
      → String
      → ℕ
      → AuthState
      → Reply TokenResponse × AuthState
  execute now f provider code state code_verifier stored_state expires_in s =
      if not (truthy state) || not (state == stored_state)
      then (raised oauth_state_mismatch, s)
      else elim (provider.exchange_code code state code_verifier) [
        | none ↦ (raised oauth_provider_error, s)
        | some info ↦ signed_in now f expires_in s (resolve_user now f provider.name info s.users)
      ]

  -- `code_verifier or stored.code_verifier`
  abbrev pub verifier_of : Option String → String → String
  verifier_of none kept = kept
  verifier_of (some given) kept = if truthy given then given else kept

  -- a request's arguments
  pub record Callback : Type 0 where
    pub provider : String
    pub code : String
    pub state : String
    pub code_verifier : Option String

  abbrev pub with_entry :
      ℕ
      → LoginFresh
      → (String → Option Provider)
      → Callback
      → Option OAuthStateEntry
      → AuthState
      → Reply TokenResponse × AuthState
  with_entry now f registry b none s = (raised oauth_state_mismatch, s)
  with_entry now f registry b (some entry) s =
      let verifier = verifier_of b.code_verifier entry.code_verifier in
      if not (entry.provider == b.provider)
      then (raised oauth_state_mismatch, s)
      else if not (truthy verifier)
      then (raised oauth_state_mismatch, s)
      else elim (registry b.provider) [
        | none ↦ (raised provider_not_registered, s)
        | some provider ↦ execute now f provider b.code b.state verifier entry.state c.expires_in s
      ]

  -- `complete_oauth`
  unfoldable pub complete_oauth :
      ℕ
      → LoginFresh
      → (String → Option Provider)
      → Callback
      → AuthState × States
      → Reply TokenResponse × (AuthState × States)
  complete_oauth now f registry b (s, d) =
      let (entry, d') = consume now b.state d in
      let (reply, s') = with_entry now f registry b entry s in (reply, (s', d'))
