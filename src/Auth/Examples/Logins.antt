-- ===== src/Auth/Examples/Logins.antt =====
-- A callback of a provider, and the same callback again.
use ai_microservices.Base.{
  ◌<◌, String, Option, some, none, [], ◌∷◌, ◌≡◌, refl, string_eq, pair_eq, nat_eq,
}
use ai_microservices.Base.Dict.{lookup}
use ai_microservices.Auth.Users.{find_by_provider}
use ai_microservices.Auth.Refresh.{TokenResponse, done, raised, oauth_state_mismatch}
use ai_microservices.Auth.Login.{
  States, OAuthStateEntry, Provider, UserInfo, LoginFresh, Callback, consume, complete_oauth,
  execute,
}
use ai_microservices.Auth.Login.States.{state_used_once}
use ai_microservices.Auth.Login.Outcome.{IsLoggedIn, complete_oauth_done}
use ai_microservices.Auth.Examples.{settings, state}

abbrev same_text : String → String
same_text s = s

abbrev info : UserInfo
info = record { provider_user_id = "9"; email = "b@b.c"; display_name = none; avatar_url = none }

abbrev github : Provider
github = record { name = "github"; exchange_code = λ code state code_verifier. some info }

abbrev registry : String → Option Provider
registry name = some github

abbrev fresh : LoginFresh
fresh = record { user_id = "b"; session_id = "s2"; token_id = "t9"; raw_token = "raw9" }

abbrev entry : OAuthStateEntry
entry = record {
  state = "xyz";
  code_challenge = "ch";
  code_verifier = "ver";
  provider = "github";
  redirect_uri = none;
  expires_at = 100;
}

abbrev states : States
states = ("xyz", entry) ∷ []

abbrev callback : Callback settings same_text
callback = record { provider = "github"; code = "c"; state = "xyz"; code_verifier = none }

abbrev response : TokenResponse
response = record { access_token = "jwt"; refresh_token = "raw9"; expires_in = 900 }

answered :
    (complete_oauth settings same_text 5 fresh registry callback (state, states)).0 ≡ done response
unfolding complete_oauth consume execute find_by_provider
answered = refl

complete_oauth_done_example :
    (e : OAuthStateEntry) × (lookup "xyz" states ≡ some e)
    × (5 < e.expires_at)
    × (e.provider ≡ "github")
    × (response.refresh_token ≡ fresh.raw_token)
    × IsLoggedIn settings same_text 5 fresh
        (complete_oauth settings same_text 5 fresh registry callback (state, states)).1.0
complete_oauth_done_example =
    complete_oauth_done settings same_text 5 fresh registry callback state states response answered

state_used_once_example :
    ((complete_oauth settings same_text 6 fresh registry callback
        (complete_oauth settings same_text 5 fresh registry callback (state, states)).1).0
      ≡ raised oauth_state_mismatch)
    × ((complete_oauth settings same_text 6 fresh registry callback
          (complete_oauth settings same_text 5 fresh registry callback (state, states)).1).1.0
        ≡ (complete_oauth settings same_text 5 fresh registry callback (state, states)).1.0)
state_used_once_example =
    state_used_once settings same_text 5 6 fresh fresh registry registry callback callback state
      states refl
