-- ===== src/Auth/Login/States.antt =====
-- A state of services/auth_service/src/infrastructure/security/oauth_state_store.py is used once.
use ai_microservices.Base.{ℕ, String, Option, none, ◌≡◌, string_eq, ==_refl, nat_eq, pair_eq}
use ai_microservices.Base.Dict.{lookup, erase, lookup-erase}
use ai_microservices.Auth.Refresh.{oauth_state_mismatch, raised, Settings, AuthState}
use ai_microservices.Auth.Login.{States, Provider, LoginFresh, Callback, consume, complete_oauth}

module _ (c : Settings) (lower : String → String) where
  -- A callback uses its state up, whatever comes of it: a second callback with the same state, at any
  -- time and with any other arguments, raises OAuthStateMismatchError and changes no token, no user
  -- and no event.
  pub state_used_once :
      (now later : ℕ) (f g : LoginFresh) (registry registry' : String → Option Provider)
      (first second : Callback c lower) (s : AuthState) (d : States)
      → second.state ≡ first.state
      → ((complete_oauth c lower later g registry' second
            (complete_oauth c lower now f registry first (s, d)).1).0
          ≡ raised oauth_state_mismatch)
        × ((complete_oauth c lower later g registry' second
              (complete_oauth c lower now f registry first (s, d)).1).1.0
            ≡ (complete_oauth c lower now f registry first (s, d)).1.0)
  unfolding complete_oauth consume
  state_used_once now later f g registry registry' first second s d same =
      let e : lookup second.state (erase first.state d) ≡ none =
        simp (same, lookup-erase first.state first.state d, ==_refl first.state) in
      (simp e, simp e)
