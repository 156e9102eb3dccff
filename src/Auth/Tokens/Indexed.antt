-- ===== src/Auth/Tokens/Indexed.antt =====
-- The store of refresh tokens stays indexed.
use mathlib.Core.Option.{some-injective}
use ai_microservices.Base.{
  ℕ, String, ◌≡◌, refl, sym, ap, inl, inr, false, Option, none, some, List, [], ◌∷◌, Bool-cases,
  if◌then◌else◌, ◌==◌, string_eq, nat_eq, pair_eq, contains, arith, eq_iff, ◌||◌, ◌++◌, ◌∙◌,
}
use ai_microservices.Base.Dict.{lookup-insert}
use ai_microservices.Auth.Tokens.{
  RefreshToken, TokenStore, is_revoked, revoke, hashes_of, save, add_hash, find_by_hash, empty,
  revoke_session,
}
use ai_microservices.Auth.Tokens.Family.{
  IsIndexed, in_session, revoked_in, lookup-revoke_hashes, in_session-revoked_in,
}

pub empty-IsIndexed : IsIndexed empty
empty-IsIndexed = record { under_hash = λ h token p. cc; listed = λ session_id h. refl }

contains-append :
    (r : String) (xs ys : List String) → contains (xs ++ ys) r ≡ (contains xs r || contains ys r)
contains-append r [] ys = refl
contains-append r (x ∷ xs) ys = ground (arith, contains-append r xs ys)

contains-add_hash :
    (h k : String) (hs : List String) → contains (add_hash h hs) k ≡ (h == k || contains hs k)
contains-add_hash h k hs = elim (Bool-cases (contains hs h)) [
  | inl c ↦ elim (Bool-cases (h == k)) [
    | inl e ↦ simp (c, e) (ap (contains hs) (sym ((eq_iff h k).0 e)) ∙ c)
    | inr e ↦ simp (c, e)
  ]
  | inr c ↦ simp c (ground (arith, contains-append k hs (h ∷ [])))
]

module _ (token : RefreshToken) (store : TokenStore) where
  pub find-save :
      (h : String)
      → find_by_hash h (save token store)
        ≡ (if token.token_hash == h then some token else find_by_hash h store)
  unfolding save
  find-save h = lookup-insert token.token_hash h token store.by_hash

  hashes_of-save :
      (session_id : String)
      → hashes_of session_id (save token store) ≡ (
          if token.session_id == session_id
          then add_hash token.token_hash (hashes_of token.session_id store)
          else hashes_of session_id store)
  unfolding save
  hashes_of-save session_id = elim (Bool-cases (token.session_id == session_id)) [
    | inl e ↦ simp (e, lookup-insert, hashes_of)
    | inr e ↦ simp (e, lookup-insert, hashes_of)
  ]

-- A token may be saved over a token of its own session, or under a hash that is free.
abbrev pub IsSavable : RefreshToken → TokenStore → Type 0
IsSavable token store =
    (old : RefreshToken)
    → find_by_hash token.token_hash store ≡ some old
    → old.session_id ≡ token.session_id

module _ (token : RefreshToken) (store : TokenStore) (ix : IsIndexed store) where
  under_hash-save :
      (h : String) (t : RefreshToken)
      → find_by_hash h (save token store) ≡ some t
      → t.token_hash ≡ h
  under_hash-save h t p = elim (Bool-cases (token.token_hash == h)) [
    | inl e ↦
        let q : some token ≡ some t = simp (find-save, e) at p in
        sym (ap (λ x. x.token_hash) (some-injective _ _ q)) ∙ (eq_iff token.token_hash h).0 e
    | inr e ↦ ix.under_hash h t (simp (find-save, e) at p)
  ]

  elsewhere :
      (session_id : String) (o : Option RefreshToken)
      → ((old : RefreshToken) → o ≡ some old → old.session_id ≡ token.session_id)
      → (token.session_id == session_id) ≡ false
      → in_session session_id o ≡ false
  elsewhere session_id none f e = refl
  elsewhere session_id (some old) f e = ap (λ x. x == session_id) (f old refl) ∙ e

  listed-save :
      IsSavable token store
      → (session_id h : String)
      → contains (hashes_of session_id (save token store)) h
        ≡ in_session session_id (find_by_hash h (save token store))
  listed-save fits session_id h = elim (Bool-cases (token.session_id == session_id)) [
    | inl e ↦
        let q : hashes_of token.session_id store ≡ hashes_of session_id store =
          ap (λ x. hashes_of x store) ((eq_iff token.session_id session_id).0 e) in
        elim (Bool-cases (token.token_hash == h)) [
          | inl f ↦ simp (hashes_of-save, find-save, e, f, contains-add_hash)
          | inr f ↦
              simp (hashes_of-save, find-save, e, f, contains-add_hash, q) (ix.listed session_id h)
        ]
    | inr e ↦ elim (Bool-cases (token.token_hash == h)) [
      | inl f ↦
          simp (hashes_of-save, find-save, e, f)
            (ix.listed session_id h
              ∙ elsewhere session_id (find_by_hash h store)
                  (λ old g.
                    fits old (ap (λ x. find_by_hash x store) ((eq_iff token.token_hash h).0 f) ∙ g))
                  e)
      | inr f ↦ simp (hashes_of-save, find-save, e, f) (ix.listed session_id h)
    ]
  ]

  -- Saving a token keeps the store indexed, where no token of another session has its hash.
  pub save-IsIndexed : IsSavable token store → IsIndexed (save token store)
  save-IsIndexed fits = record { under_hash = under_hash-save; listed = listed-save fits }

module _ (now : ℕ) (reason : String) where
  under_hash-revoked_in :
      (h : String) (o : Option RefreshToken) (token : RefreshToken)
      → ((t : RefreshToken) → o ≡ some t → t.token_hash ≡ h)
      → revoked_in now reason o ≡ some token
      → token.token_hash ≡ h
  under_hash-revoked_in h none token f p = cc
  under_hash-revoked_in h (some t) token f p = elim (Bool-cases (is_revoked t)) [
    | inl r ↦ f token (simp r at p)
    | inr r ↦
        let q : some (revoke now reason t) ≡ some token = simp r at p in
        sym (ap (λ x. x.token_hash) (some-injective _ _ q)) ∙ f t refl
  ]

-- Revoking a session keeps the store indexed.
pub revoke_session-IsIndexed :
    (now : ℕ) (session_id reason : String) (store : TokenStore)
    → IsIndexed store
    → IsIndexed (revoke_session now session_id reason store)
unfolding revoke_session
revoke_session-IsIndexed now session_id reason store ix = record {
  under_hash = λ h token p. elim (Bool-cases (contains (hashes_of session_id store) h)) [
    | inl c ↦
        under_hash-revoked_in now reason h (find_by_hash h store) token (ix.under_hash h)
          (simp (lookup-revoke_hashes, c) at p)
    | inr c ↦ ix.under_hash h token (simp (lookup-revoke_hashes, c) at p)
  ];
  listed = λ s h. elim (Bool-cases (contains (hashes_of session_id store) h)) [
    | inl c ↦ simp (lookup-revoke_hashes, c, in_session-revoked_in) (ix.listed s h)
    | inr c ↦ simp (lookup-revoke_hashes, c) (ix.listed s h)
  ];
}
