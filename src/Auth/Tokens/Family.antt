-- ===== src/Auth/Tokens/Family.antt =====
-- The index of the store by session, and what `revoke_session` does to a family of tokens.
use ai_microservices.Base.{
  ℕ, String, ◌≡◌, refl, ap, inl, inr, Bool, false, Option, none, some, List, [], ◌∷◌, Bool-cases,
  Option-cases, if◌then◌else◌, ◌==◌, string_eq, nat_eq, pair_eq, contains, eq_iff,
}
use ai_microservices.Base.Dict.{Dict, lookup, lookup-insert}
use ai_microservices.Auth.Tokens.{
  RefreshToken, TokenStore, is_revoked, revoke, hashes_of, find_by_hash, revoke_hash, revoke_hashes,
  revoke_session,
}

-- A token that is there and belongs to the session.
abbrev pub in_session : String → Option RefreshToken → Bool
in_session session_id none = false
in_session session_id (some token) = token.session_id == session_id

-- Every token stands under its own hash, and the hashes listed under a session are those of its
-- tokens.
pub record IsIndexed (store : TokenStore) : Type 0 where
  pub under_hash :
      (h : String) (token : RefreshToken) → find_by_hash h store ≡ some token → token.token_hash ≡ h
  pub listed :
      (session_id h : String)
      → contains (hashes_of session_id store) h ≡ in_session session_id (find_by_hash h store)

-- what `revoke_session` makes of a token that it reaches
abbrev pub revoked_now : ℕ → String → RefreshToken → RefreshToken
revoked_now now reason token = if is_revoked token then token else revoke now reason token

abbrev pub revoked_in : ℕ → String → Option RefreshToken → Option RefreshToken
revoked_in now reason none = none
revoked_in now reason (some token) = some (revoked_now now reason token)

module _ (now : ℕ) (reason : String) where
  lookup-revoke_hash :
      (h k : String) (d : Dict String RefreshToken)
      → lookup k (revoke_hash now reason h d)
        ≡ (if h == k then revoked_in now reason (lookup k d) else lookup k d)
  lookup-revoke_hash h k d = elim (Bool-cases (h == k)) [
    | inl e ↦
        let q : lookup h d ≡ lookup k d = ap (λ x. lookup x d) ((eq_iff h k).0 e) in
        elim (Option-cases (lookup k d)) [
          | inl n ↦ simp (e, q, n, revoke_hash)
          | inr (token, f) ↦ elim (Bool-cases (is_revoked token)) [
            | inl r ↦ simp (e, q, f, r, revoke_hash)
            | inr r ↦ simp (e, q, f, r, lookup-insert, revoke_hash)
          ]
        ]
    | inr e ↦ elim (Option-cases (lookup h d)) [
      | inl n ↦ simp (e, n, revoke_hash)
      | inr (token, f) ↦ elim (Bool-cases (is_revoked token)) [
        | inl r ↦ simp (e, f, r, revoke_hash)
        | inr r ↦ simp (e, f, r, lookup-insert, revoke_hash)
      ]
    ]
  ]

  revoked_in_twice :
      (o : Option RefreshToken)
      → revoked_in now reason (revoked_in now reason o) ≡ revoked_in now reason o
  revoked_in_twice none = refl
  revoked_in_twice (some token) = elim (Bool-cases (is_revoked token)) [
    | inl r ↦ simp r
    | inr r ↦ simp r
  ]

  pub lookup-revoke_hashes :
      (hs : List String) (k : String) (d : Dict String RefreshToken)
      → lookup k (revoke_hashes now reason hs d)
        ≡ (if contains hs k then revoked_in now reason (lookup k d) else lookup k d)
  lookup-revoke_hashes [] k d = refl
  lookup-revoke_hashes (h ∷ hs) k d =
      let rest = lookup-revoke_hashes hs k (revoke_hash now reason h d) in
      elim (Bool-cases (h == k)) [
        | inl e ↦ elim (Bool-cases (contains hs k)) [
          | inl c ↦ simp (rest, lookup-revoke_hash, e, c, revoked_in_twice)
          | inr c ↦ simp (rest, lookup-revoke_hash, e, c)
        ]
        | inr e ↦ simp (rest, lookup-revoke_hash, e)
      ]

  pub in_session-revoked_in :
      (session_id : String) (o : Option RefreshToken)
      → in_session session_id (revoked_in now reason o) ≡ in_session session_id o
  in_session-revoked_in session_id none = refl
  in_session-revoked_in session_id (some token) = elim (Bool-cases (is_revoked token)) [
    | inl r ↦ simp r
    | inr r ↦ simp r
  ]

  -- In a store that is indexed, revoking a session revokes the tokens of the session that are not
  -- revoked yet, with the time and the reason given, and changes no other token of the store.
  pub revoke_session_exact :
      (session_id h : String) (store : TokenStore)
      → IsIndexed store
      → find_by_hash h (revoke_session now session_id reason store) ≡ (
          if in_session session_id (find_by_hash h store)
          then revoked_in now reason (find_by_hash h store)
          else find_by_hash h store)
  unfolding revoke_session
  revoke_session_exact session_id h store ix =
      rw (← ix.listed session_id h)
        (lookup-revoke_hashes (hashes_of session_id store) h store.by_hash)
