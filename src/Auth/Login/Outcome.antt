-- ===== src/Auth/Login/Outcome.antt =====
-- What a login of services/auth_service/src/application/use_cases/oauth_login.py leaves.
use mathlib.Core.Option.{some-injective}
use ai_microservices.Base.{
  ℕ, String, Option, none, some, ◌≡◌, refl, string_eq, pair_eq, ◌==◌, ==_refl, Bool-cases,
  Option-cases, inl, inr, true, not, ◌||◌, eq_iff, arith, nat_eq, ◌<◌, sym, ap, ◌∙◌, leb,
}
use ai_microservices.Base.Text.{truthy}
use ai_microservices.Base.Dict.{lookup, lookup-insert}
use ai_microservices.Auth.Tokens.{create, find_by_hash, RefreshToken}
use ai_microservices.Auth.Tokens as Tokens
use ai_microservices.Auth.Users.{User, UserStore, find_by_id, find_by_provider}
use ai_microservices.Auth.Users as Users
use ai_microservices.Auth.Refresh.{AuthState, Settings, TokenResponse, Reply, done, raised}
use ai_microservices.Auth.Login.{
  Callback, OAuthStateEntry, with_entry, verifier_of, live, complete_oauth, consume, States,
  Provider, UserInfo, LoginFresh, resolve_user, issue_tokens, signed_in, execute, publish_events,
}

module _ (c : Settings) (lower : String → String) (now : ℕ) (f : LoginFresh) where
  -- the user that is logged in is stored and active
  abbrev IsKnown : Reply User × UserStore → Type 0
  IsKnown (raised e, users) = Unit
  IsKnown (done user, users) = (find_by_id user.id users ≡ some user) × (user.active ≡ true)

  resolve_user-IsKnown :
      (name : String) (info : UserInfo) (users : UserStore)
      → IsKnown (resolve_user c lower now f name info users)
  unfolding Users.save
  resolve_user-IsKnown name info users =
      elim (Option-cases (find_by_provider name info.provider_user_id users)) [
        | inl e ↦ simp (resolve_user, e) (simp (lookup-insert, ==_refl), refl)
        | inr (user, e) ↦ elim (Bool-cases user.active) [
          | inl a ↦ simp (resolve_user, e, a) (simp (lookup-insert, ==_refl), refl)
          | inr a ↦ simp (resolve_user, e, a) tt
        ]
      ]

  -- events leave the tokens and the users alone
  publish_events-tokens :
      (user : User) (session_id jti : String) (s : AuthState)
      → (publish_events c lower user session_id jti s).tokens ≡ s.tokens
  publish_events-tokens user session_id jti s = ground arith

  publish_events-users :
      (user : User) (session_id jti : String) (s : AuthState)
      → (publish_events c lower user session_id jti s).users ≡ s.users
  publish_events-users user session_id jti s = ground arith

  -- what the token of the login is
  abbrev pub issued : User → RefreshToken
  issued user = create now f.token_id (c.hash f.raw_token) user.id f.session_id c.refresh_ttl_days

  -- The state after a login: its user is stored and active, and its token is stored for that user.
  pub record IsLoggedIn (s : AuthState) : Type 0 where
    pub logged_in : User
    pub known : find_by_id logged_in.id s.users ≡ some logged_in
    pub active : logged_in.active ≡ true
    pub token_found : find_by_hash (c.hash f.raw_token) s.tokens ≡ some (issued logged_in)

  abbrev Leaves : Reply TokenResponse × AuthState → Type 0
  Leaves (raised e, s) = Unit
  Leaves (done r, s) = (r.refresh_token ≡ f.raw_token) × IsLoggedIn s

  issue_tokens-Leaves :
      (expires_in : ℕ) (user : User) (s : AuthState)
      → find_by_id user.id s.users ≡ some user
      → user.active ≡ true
      → Leaves (issue_tokens c lower now f expires_in user s)
  unfolding Tokens.save create
  issue_tokens-Leaves expires_in user s known active =
      elim (Option-cases (c.issue_access_token user f.session_id)) [
        | inl e ↦ simp (issue_tokens, e) tt
        | inr ((access_token, jti), e) ↦
            simp (issue_tokens, e)
              (
                refl,
                record {
                  logged_in = user;
                  known = rw (publish_events-users user f.session_id jti _) known;
                  active = active;
                  token_found =
                      rw (publish_events-tokens user f.session_id jti _)
                        (simp (lookup-insert, ==_refl));
                },
              )
      ]

  signed_in-Leaves :
      (expires_in : ℕ) (s : AuthState) (x : Reply User × UserStore)
      → IsKnown x
      → Leaves (signed_in c lower now f expires_in s x)
  signed_in-Leaves expires_in s (raised e, users) h = tt
  signed_in-Leaves expires_in s (done user, users) h =
      issue_tokens-Leaves expires_in user (record s { users = users }) h.0 h.1

  Leaves-done :
      (x : Reply TokenResponse × AuthState) (r : TokenResponse)
      → Leaves x
      → x.0 ≡ done r
      → (r.refresh_token ≡ f.raw_token) × IsLoggedIn x.1
  Leaves-done (raised e, s) r h q = cc
  Leaves-done (done r', s) r h q =
      let e : r' ≡ r = cc in (sym (ap (λ z. z.refresh_token) e) ∙ h.0, h.1)

  execute-Leaves :
      (provider : Provider) (code state code_verifier stored_state : String) (expires_in : ℕ)
      (s : AuthState)
      → Leaves (execute c lower now f provider code state code_verifier stored_state expires_in s)
  unfolding execute
  execute-Leaves provider code state code_verifier stored_state expires_in s =
      elim (Bool-cases (not (truthy state) || not (state == stored_state))) [
        | inl e ↦ simp (execute, e) tt
        | inr e ↦ elim (Option-cases (provider.exchange_code code state code_verifier)) [
          | inl q ↦ simp (execute, e, q) tt
          | inr (info, q) ↦
              simp (execute, e, q)
                (signed_in-Leaves expires_in s _ (resolve_user-IsKnown provider.name info s.users))
        ]
      ]

  with_entry-Leaves :
      (registry : String → Option Provider) (b : Callback c lower) (entry : Option OAuthStateEntry)
      (s : AuthState)
      → Leaves (with_entry c lower now f registry b entry s)
  with_entry-Leaves registry b none s = tt
  with_entry-Leaves registry b (some entry) s =
      elim (Bool-cases (not (entry.provider == b.provider))) [
        | inl e ↦ simp (with_entry, e) tt
        | inr e ↦
            elim (Bool-cases
              (not (truthy (verifier_of c lower b.code_verifier entry.code_verifier)))) [
                | inl v ↦ simp (with_entry, e, v) tt
                | inr v ↦ elim (Option-cases (registry b.provider)) [
                  | inl p ↦ simp (with_entry, e, v, p) tt
                  | inr (provider, p) ↦
                      simp (with_entry, e, v, p)
                        (execute-Leaves provider b.code b.state _ entry.state c.expires_in s)
                ]
              ]
      ]

  with_entry_done :
      (registry : String → Option Provider) (b : Callback c lower) (entry : Option OAuthStateEntry)
      (s : AuthState) (r : TokenResponse)
      → (with_entry c lower now f registry b entry s).0 ≡ done r
      → (e : OAuthStateEntry) × (entry ≡ some e) × (e.provider ≡ b.provider)
  with_entry_done registry b none s r h = cc
  with_entry_done registry b (some entry) s r h = elim (Bool-cases (entry.provider == b.provider)) [
    | inl e ↦ (entry, refl, (eq_iff entry.provider b.provider).0 e)
    | inr e ↦ cc (simp (with_entry, e) at h)
  ]

  live-some :
      (o : Option OAuthStateEntry) (e : OAuthStateEntry)
      → live now o ≡ some e
      → (o ≡ some e) × (now < e.expires_at)
  live-some none e h = cc
  live-some (some x) e h = elim (Bool-cases (leb x.expires_at now)) [
    | inl p ↦ cc (simp (live, p) at h)
    | inr p ↦
        let q : x ≡ e = some-injective _ _ (simp (live, p) at h) in
        (ap (λ z. some z) q, rw⁻¹ q (ground (arith, p)))
  ]

  -- A callback that hands out tokens has a state that was saved for its provider and has not expired.
  -- The refresh token that it hands out is the fresh one; it is stored for a user who is stored and
  -- active.
  pub complete_oauth_done :
      (registry : String → Option Provider) (b : Callback c lower) (s : AuthState) (d : States)
      (r : TokenResponse)
      → (complete_oauth c lower now f registry b (s, d)).0 ≡ done r
      → (e : OAuthStateEntry) × (lookup b.state d ≡ some e)
        × (now < e.expires_at)
        × (e.provider ≡ b.provider)
        × (r.refresh_token ≡ f.raw_token)
        × IsLoggedIn (complete_oauth c lower now f registry b (s, d)).1.0
  unfolding complete_oauth consume
  complete_oauth_done registry b s d r h =
      let (e, p, q) = with_entry_done registry b (live now (lookup b.state d)) s r h in
      let (x, y) = live-some (lookup b.state d) e p in
      let (t, l) =
        Leaves-done _ r (with_entry-Leaves registry b (live now (lookup b.state d)) s) h in
      (e, x, y, q, t, l)
