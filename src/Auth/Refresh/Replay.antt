-- ===== src/Auth/Refresh/Replay.antt =====
-- What a rotation, a replay and a logout do to the store of tokens.
use ai_microservices.Base.{
  ℕ, String, ◌≡◌, refl, sym, ap, ◌∙◌, inl, inr, true, false, Option, none, some, Bool-cases, ◌==◌,
  string_eq, ==_refl, eq_iff, nat_eq, pair_eq, arith, ◌+◌, ◌*◌,
}
use mathlib.Core.Option.{some-injective}
use ai_microservices.Auth.Tokens.{
  RefreshToken, TokenStore, is_revoked, is_expired, revoke, save, create, find_by_hash,
  revoke_session, day,
}
use ai_microservices.Auth.Tokens.Family.{IsIndexed, in_session, revoked_in, revoke_session_exact}
use ai_microservices.Auth.Tokens.Indexed.{IsSavable, find-save, save-IsIndexed}
use ai_microservices.Auth.Users.{User, find_by_id}
use ai_microservices.Auth.Refresh.{
  Settings, Fresh, AuthState, AuthEvent, refresh, logout, rotate, rotated, replacement, publish,
  renew, issue, done, raised, token_family_compromised,
}

-- The hash of the fresh token is not one that is stored.
abbrev pub IsFresh : Settings → Fresh → AuthState → Type 0
IsFresh c f s = find_by_hash (c.hash f.raw_token) s.tokens ≡ none

-- every token of the session is revoked
abbrev pub IsClosed : String → TokenStore → Type 0
IsClosed session_id store =
    (h : String) (token : RefreshToken)
    → find_by_hash h store ≡ some token
    → token.session_id ≡ session_id
    → is_revoked token ≡ true

publish-tokens : (c : Settings) (e : AuthEvent) (s : AuthState) → (publish c e s).tokens ≡ s.tokens
publish-tokens c e s = elim (Bool-cases (c.accepts e)) [ inl a ↦ simp a | inr a ↦ simp a ]

revoked_in-is_revoked :
    (now : ℕ) (reason : String) (o : Option RefreshToken) (token : RefreshToken)
    → revoked_in now reason o ≡ some token
    → is_revoked token ≡ true
revoked_in-is_revoked now reason none token p = cc
revoked_in-is_revoked now reason (some t) token p = elim (Bool-cases (is_revoked t)) [
  | inl r ↦ ap is_revoked (sym (some-injective _ _ (simp r at p))) ∙ r
  | inr r ↦ sym (ap is_revoked (some-injective (revoke now reason t) token (simp r at p)))
]

-- A session that is revoked is closed.
revoke_session-IsClosed :
    (now : ℕ) (session_id reason : String) (store : TokenStore)
    → IsIndexed store
    → IsClosed session_id (revoke_session now session_id reason store)
revoke_session-IsClosed now session_id reason store ix h token p q =
    let x = revoke_session_exact now reason session_id h store ix in
    elim (Bool-cases (in_session session_id (find_by_hash h store))) [
      | inl e ↦
          revoked_in-is_revoked now reason (find_by_hash h store) token (sym (simp e at x) ∙ p)
      | inr e ↦
          let y : find_by_hash h store ≡ some token = sym (simp e at x) ∙ p in
          cc (
            sym e ∙ ap (in_session session_id) y ∙ ap (λ z. z == session_id) q ∙ ==_refl session_id)
    ]

module _ (c : Settings) (now : ℕ) (f : Fresh) (token : String) (s : AuthState)
    (stored : RefreshToken) (ix : IsIndexed s.tokens)
    (found : find_by_hash (c.hash token) s.tokens ≡ some stored) where
  -- A revoked token that is presented is refused as a compromised family, and every token of its
  -- session is revoked from then on, those issued since included.
  pub replay_closes :
      is_revoked stored ≡ true
      → ((refresh c now f token s).0 ≡ raised (token_family_compromised stored.session_id))
        × IsClosed stored.session_id (refresh c now f token s).1.tokens
  unfolding refresh
  replay_closes r =
      simp (found, r, refresh)
        (refl, revoke_session-IsClosed now stored.session_id "compromised_reuse" s.tokens ix)

module _ (c : Settings) (now : ℕ) (f : Fresh) (token : String) (s : AuthState)
    (stored : RefreshToken) (ix : IsIndexed s.tokens)
    (found : find_by_hash (c.hash token) s.tokens ≡ some stored) where
  module _ (user : User) (fresh : IsFresh c f s) where
    hash_differs : (c.hash f.raw_token == stored.token_hash) ≡ false
    hash_differs = elim (Bool-cases (c.hash f.raw_token == stored.token_hash)) [
      | inl e ↦
          let q : c.hash f.raw_token ≡ c.hash token =
            (eq_iff (c.hash f.raw_token) stored.token_hash).0 e
            ∙ ix.under_hash (c.hash token) stored found in
          cc (sym fresh ∙ ap (λ h. find_by_hash h s.tokens) q ∙ found)
      | inr e ↦ e
    ]

    differs_from_hash : (stored.token_hash == c.hash f.raw_token) ≡ false
    differs_from_hash = ground (
      arith,
      hash_differs,
      eq_iff stored.token_hash (c.hash f.raw_token),
      eq_iff (c.hash f.raw_token) stored.token_hash,
    )

    replacement-IsSavable : IsSavable (replacement c now f user stored) s.tokens
    unfolding create
    replacement-IsSavable old p = cc (sym fresh ∙ p)

    rotated-IsSavable :
        IsSavable (rotated now f.id stored) (save (replacement c now f user stored) s.tokens)
    unfolding create
    rotated-IsSavable old p =
        let q : find_by_hash stored.token_hash s.tokens ≡ some old =
          simp (find-save, hash_differs) at p in
        let h : stored.token_hash ≡ c.hash token = ix.under_hash (c.hash token) stored found in
        ap (λ x. x.session_id)
          (some-injective _ _ (sym q ∙ ap (λ x. find_by_hash x s.tokens) h ∙ found))

    rotate-IsIndexed : IsIndexed (rotate c now f user stored s.tokens)
    rotate-IsIndexed =
        save-IsIndexed (rotated now f.id stored) (save (replacement c now f user stored) s.tokens)
          (save-IsIndexed (replacement c now f user stored) s.tokens ix replacement-IsSavable)
          rotated-IsSavable

    find-rotate_old :
        find_by_hash (c.hash token) (rotate c now f user stored s.tokens)
        ≡ some (rotated now f.id stored)
    find-rotate_old =
        let h : stored.token_hash ≡ c.hash token = ix.under_hash (c.hash token) stored found in
        simp (find-save, h, ==_refl)

    find-rotate_new :
        find_by_hash (c.hash f.raw_token) (rotate c now f user stored s.tokens)
        ≡ some (replacement c now f user stored)
    unfolding create
    find-rotate_new = simp (find-save, differs_from_hash, ==_refl)

    module _ (access_token jti : String) (live : is_revoked stored ≡ false)
        (current : is_expired now stored ≡ false)
        (known : find_by_id stored.user_id s.users ≡ some user) (active : user.active ≡ true)
        (signed : c.issue_access_token user stored.session_id ≡ some (access_token, jti)) where
      refresh-tokens : (refresh c now f token s).1.tokens ≡ rotate c now f user stored s.tokens
      unfolding refresh
      refresh-tokens =
          simp (found, live, current, known, active, signed, refresh, renew, issue)
            (publish-tokens c _ _)

      -- A refresh with a token that is stored, not revoked and not expired, of a user that is active,
      -- where the fresh token is new and an access token can be signed: the reply hands out the fresh
      -- token, the presented token is marked as used and revoked as rotated at that time and points to
      -- the new one, the new one is stored for the user and the same session under the hash of the
      -- fresh token, to expire after the configured days, and the store stays indexed.
      pub refresh_rotates :
          ((refresh c now f token s).0
            ≡ done (record {
              access_token = access_token;
              refresh_token = f.raw_token;
              expires_in = c.expires_in;
            }))
          × (find_by_hash (c.hash token) (refresh c now f token s).1.tokens
              ≡ some (record stored {
                used_at = some now;
                revoked_at = some now;
                revoked_reason = some "rotated";
                replaced_by_id = some f.id;
              }))
          × (find_by_hash (c.hash f.raw_token) (refresh c now f token s).1.tokens
              ≡ some (record {
                id = f.id;
                token_hash = c.hash f.raw_token;
                user_id = user.id;
                session_id = stored.session_id;
                expires_at = now + day * c.refresh_ttl_days;
                created_at = now;
                used_at = none;
                revoked_at = none;
                revoked_reason = none;
                replaced_by_id = none;
              }))
          × IsIndexed (refresh c now f token s).1.tokens
      unfolding refresh create
      refresh_rotates = (
        simp (found, live, current, known, active, signed, refresh, renew, issue),
        rw refresh-tokens find-rotate_old,
        rw refresh-tokens find-rotate_new,
        rw refresh-tokens rotate-IsIndexed,
      )

      -- After such a refresh, the same token presented a second time, at any time, is refused as a
      -- compromised family, and it closes the session: the replacement that the first refresh handed
      -- out is revoked too.
      pub second_use_closes :
          (later : ℕ) (g : Fresh)
          → ((refresh c later g token (refresh c now f token s).1).0
              ≡ raised (token_family_compromised stored.session_id))
            × IsClosed stored.session_id
                (refresh c later g token (refresh c now f token s).1).1.tokens
      second_use_closes later g =
          let (reply, old, new, indexed) = refresh_rotates in
          replay_closes c later g token (refresh c now f token s).1 (rotated now f.id stored)
            indexed old refl

-- A logout with a token that is stored closes the session of the token, unless the token was
-- revoked already.
pub logout_closes :
    (c : Settings) (now : ℕ) (token : String) (reason : Option String) (s : AuthState)
    (stored : RefreshToken)
    → IsIndexed s.tokens
    → find_by_hash (c.hash token) s.tokens ≡ some stored
    → is_revoked stored ≡ false
    → IsClosed stored.session_id (logout c now token reason s).tokens
unfolding logout
logout_closes c now token reason s stored ix found live =
    simp (found, live, logout)
      (rw (publish-tokens) (revoke_session-IsClosed now stored.session_id _ s.tokens ix))
