-- ===== src/Auth/Tokens.antt =====
-- services/auth_service/src: domain/entities/refresh_token.py and the store of refresh tokens in
-- infrastructure/persistence/in_memory_refresh_token_repository.py. A time is a number of
-- microseconds, read from the clock once by a call and passed as `now`. The texts of `secrets`,
-- `uuid` and `hashlib` are arguments.
use ai_microservices.Base.Dict.{Dict, lookup, insert, erase}
use ai_microservices.Base.{
  ℕ, ◌+◌, ◌*◌, String, Bool, not, ◌&&◌, Option, none, some, List, [], ◌∷◌, ◌++◌, ltb, leb,
  if◌then◌else◌, is_some, length, ◌==◌, nat_eq, string_eq, pair_eq, contains,
}
pub mod Family
pub mod Indexed

pub record RefreshToken : Type 0 where
  pub id : String
  pub token_hash : String
  pub user_id : String
  pub session_id : String
  pub expires_at : ℕ
  pub created_at : ℕ
  pub used_at : Option ℕ
  pub revoked_at : Option ℕ
  pub revoked_reason : Option String
  pub replaced_by_id : Option String

-- microseconds in a day
abbrev pub day : ℕ
day = 86400000000

-- `RefreshToken.create`, which also returns the text that `raw_token` is
unfoldable pub create : ℕ → String → String → String → String → ℕ → RefreshToken
create now id token_hash user_id session_id ttl_days = record {
  id = id;
  token_hash = token_hash;
  user_id = user_id;
  session_id = session_id;
  expires_at = now + day * ttl_days;
  created_at = now;
  used_at = none;
  revoked_at = none;
  revoked_reason = none;
  replaced_by_id = none;
}

abbrev pub is_revoked : RefreshToken → Bool
is_revoked token = is_some token.revoked_at

abbrev pub is_expired : ℕ → RefreshToken → Bool
is_expired now token = leb token.expires_at now

abbrev pub is_valid : ℕ → RefreshToken → Bool
is_valid now token = not (is_some token.revoked_at) && ltb now token.expires_at

abbrev pub mark_used : ℕ → String → RefreshToken → RefreshToken
mark_used now replaced_by_id token = record token {
  used_at = some now;
  replaced_by_id = some replaced_by_id;
}

abbrev pub revoke : ℕ → String → RefreshToken → RefreshToken
revoke now reason token = record token { revoked_at = some now; revoked_reason = some reason }

pub record TokenStore : Type 0 where
  pub by_hash : Dict String RefreshToken
  pub by_session : Dict String (List String)

abbrev pub empty : TokenStore
empty = record { by_hash = []; by_session = [] }

-- `self._by_session.get(session_id, [])`
abbrev pub hashes_of : String → TokenStore → List String
hashes_of session_id store = elim (lookup session_id store.by_session) [
  | none ↦ []
  | some hashes ↦ hashes
]

abbrev pub add_hash : String → List String → List String
add_hash h hashes = if contains hashes h then hashes else hashes ++ (h ∷ [])

unfoldable pub save : RefreshToken → TokenStore → TokenStore
save token store = record {
  by_hash = insert token.token_hash token store.by_hash;
  by_session =
      insert token.session_id (add_hash token.token_hash (hashes_of token.session_id store))
        store.by_session;
}

abbrev pub find_by_hash : String → TokenStore → Option RefreshToken
find_by_hash h store = lookup h store.by_hash

-- the tokens of some hashes, a hash without a token left out
abbrev pub tokens_of : Dict String RefreshToken → List String → List RefreshToken
tokens_of d [] = []
tokens_of d (h ∷ hs) = elim (lookup h d) [
  | none ↦ tokens_of d hs
  | some token ↦ token ∷ tokens_of d hs
]

abbrev pub find_by_session_id : String → TokenStore → List RefreshToken
find_by_session_id session_id store = tokens_of store.by_hash (hashes_of session_id store)

-- a step of `revoke_session`: a token that is there and not revoked is revoked in place
abbrev pub revoke_hash : ℕ → String → String → Dict String RefreshToken → Dict String RefreshToken
revoke_hash now reason h d = elim (lookup h d) [
  | none ↦ d
  | some token ↦ if is_revoked token then d else insert h (revoke now reason token) d
]

abbrev pub revoke_hashes :
    ℕ → String → List String → Dict String RefreshToken → Dict String RefreshToken
revoke_hashes now reason [] d = d
revoke_hashes now reason (h ∷ hs) d = revoke_hashes now reason hs (revoke_hash now reason h d)

-- `revoke_session`, less the count that it returns for the log
unfoldable pub revoke_session : ℕ → String → String → TokenStore → TokenStore
revoke_session now session_id reason store = record store {
  by_hash = revoke_hashes now reason (hashes_of session_id store) store.by_hash;
}

abbrev remove_hash : String → List String → List String
remove_hash h [] = []
remove_hash h (x ∷ xs) = if x == h then xs else x ∷ remove_hash h xs

-- a step of `delete_expired`
abbrev drop_hash : String → TokenStore → TokenStore
drop_hash h store = elim (lookup h store.by_hash) [
  | none ↦ store
  | some token ↦ record {
    by_hash = erase h store.by_hash;
    by_session =
        if contains (hashes_of token.session_id store) h
        then insert token.session_id (remove_hash h (hashes_of token.session_id store))
            store.by_session
        else store.by_session;
  }
]

abbrev drop_hashes : List String → TokenStore → TokenStore
drop_hashes [] store = store
drop_hashes (h ∷ hs) store = drop_hashes hs (drop_hash h store)

abbrev pub expired_hashes : ℕ → Dict String RefreshToken → List String
expired_hashes now [] = []
expired_hashes now ((h, token) ∷ d) =
    let rest = expired_hashes now d in if is_expired now token then h ∷ rest else rest

-- `delete_expired` and the number it returns
unfoldable pub delete_expired : ℕ → TokenStore → TokenStore × ℕ
delete_expired now store =
    let hashes = expired_hashes now store.by_hash in (drop_hashes hashes store, length hashes)
