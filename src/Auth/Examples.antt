-- ===== src/Auth/Examples.antt =====
-- The theorems of the refresh tokens and the users at a store with one session.
mod Logins
mod Jwts
use ai_microservices.Base.{
  ◌≡◌, refl, true, none, some, [], ◌∷◌, if◌then◌else◌, string_eq, nat_eq, pair_eq, String, ◌+◌, ◌*◌,
}
use ai_microservices.Auth.Tokens.{
  RefreshToken, TokenStore, create, find_by_hash, save, empty, revoke_session, day,
}
use ai_microservices.Auth.Tokens.Family.{IsIndexed, in_session, revoked_in, revoke_session_exact}
use ai_microservices.Auth.Tokens.Indexed.{empty-IsIndexed, save-IsIndexed}
use ai_microservices.Auth.Users.{User, UserStore}
use ai_microservices.Auth.Refresh.{
  Settings, Fresh, AuthState, done, raised, token_family_compromised, refresh, rotated, replacement,
}
use ai_microservices.Auth.Refresh.Replay.{IsClosed, refresh_rotates, second_use_closes}

abbrev pub alice : User
alice = record {
  id = "a";
  provider = "github";
  provider_user_id = "7";
  email = "a@b.c";
  display_name = "Alice";
  roles = "user" ∷ [];
  active = true;
  created_at = 1;
  last_login_at = none;
  avatar_url = none;
  username = none;
  password_hash = none;
}

abbrev no_users : UserStore
no_users = record { by_id = []; by_provider = []; by_username = [] }

abbrev users : UserStore
users = record { by_id = ("a", alice) ∷ []; by_provider = []; by_username = [] }

-- a hash without collisions
abbrev pub settings : Settings
settings = record {
  hash = λ raw. raw;
  issue_access_token = λ user session_id. some ("jwt", "jti");
  refresh_ttl_days = 30;
  expires_in = 900;
  accepts = λ e. true;
}

abbrev pub first : RefreshToken
first = create 0 "t1" "raw1" "a" "s1" 30

abbrev one_token : TokenStore
one_token = save first empty

one_token-IsIndexed : IsIndexed one_token
one_token-IsIndexed = save-IsIndexed first empty empty-IsIndexed (λ old p. cc)

abbrev pub state : AuthState
state = record { tokens = one_token; users = users; events = [] }

abbrev pub next : Fresh
next = record { raw_token = "raw2"; id = "t2" }

refresh_rotates_example :
    ((refresh settings 5 next "raw1" state).0
      ≡ done (record { access_token = "jwt"; refresh_token = "raw2"; expires_in = 900 }))
    × (find_by_hash "raw1" (refresh settings 5 next "raw1" state).1.tokens
        ≡ some (record first {
          used_at = some 5;
          revoked_at = some 5;
          revoked_reason = some "rotated";
          replaced_by_id = some "t2";
        }))
    × (find_by_hash "raw2" (refresh settings 5 next "raw1" state).1.tokens
        ≡ some (record {
          id = "t2";
          token_hash = "raw2";
          user_id = alice.id;
          session_id = first.session_id;
          expires_at = 5 + day * settings.refresh_ttl_days;
          created_at = 5;
          used_at = none;
          revoked_at = none;
          revoked_reason = none;
          replaced_by_id = none;
        }))
    × IsIndexed (refresh settings 5 next "raw1" state).1.tokens
unfolding save create
refresh_rotates_example =
    refresh_rotates settings 5 next "raw1" state first one_token-IsIndexed refl alice refl "jwt"
      "jti" refl refl refl refl refl

second_use_closes_example :
    ((refresh settings 6 next "raw1" (refresh settings 5 next "raw1" state).1).0
      ≡ raised (token_family_compromised "s1"))
    × IsClosed "s1"
        (refresh settings 6 next "raw1" (refresh settings 5 next "raw1" state).1).1.tokens
unfolding save create
second_use_closes_example =
    second_use_closes settings 5 next "raw1" state first one_token-IsIndexed refl alice refl "jwt"
      "jti" refl refl refl refl refl 6 next

-- the token of a session that was logged out
abbrev spent : RefreshToken
spent = record first { revoked_at = some 3; revoked_reason = some "user_logout" }

abbrev spent_state : AuthState
spent_state = record state { tokens = save spent empty }

abbrev user_role : String
user_role = "user"
