-- ===== src/Auth/Jwt/RoundTrip.antt =====
-- The claims of a JWT, written and read back.
use ai_microservices.Base.{ℕ, String, ◌≡◌, refl, Bool, true, false, Option, some, if◌then◌else◌}
use ai_microservices.Auth.Jwt.{
  AccessTokenPayload, RefreshTokenPayload, truth, written, access_from_claims_dict,
  refresh_from_claims_dict, access_to_claims_dict, refresh_to_claims_dict,
}
use ai_microservices.Base.Value.{Value, null, field, end, Fields}
use ai_microservices.Base.Int.{ℤ}

-- what a payload is read back as: an optional claim that is empty is left out
abbrev pub or_none : Value → Value
or_none v = if truth v then v else null

abbrev pub without_empty : AccessTokenPayload → AccessTokenPayload
without_empty p = record p {
  session_id = or_none p.session_id;
  display_name = or_none p.display_name;
  avatar_url = or_none p.avatar_url;
}

abbrev claim_when : Bool → String → Value → Fields → Fields
claim_when b key value later = if b then field key value later else later

-- the optional claims, each there or not
abbrev pub others : AccessTokenPayload → Bool → Bool → Bool → Fields
others p a b c =
    claim_when a "session_id" p.session_id
      (claim_when b "display_name" p.display_name (claim_when c "avatar_url" p.avatar_url end))

module _ (int_of_float : ℕ → Option ℤ) (int_of_text : String → Option ℤ) where
  read_back :
      (p : AccessTokenPayload) (a b c : Bool)
      → access_from_claims_dict int_of_float int_of_text (written p (others p a b c))
        ≡ some (record p {
          session_id = if a then p.session_id else null;
          display_name = if b then p.display_name else null;
          avatar_url = if c then p.avatar_url else null;
        })
  unfolding access_from_claims_dict
  read_back p true true true = refl
  read_back p true true false = refl
  read_back p true false true = refl
  read_back p true false false = refl
  read_back p false true true = refl
  read_back p false true false = refl
  read_back p false false true = refl
  read_back p false false false = refl

  pub access_read_back :
      (p : AccessTokenPayload)
      → access_from_claims_dict int_of_float int_of_text (access_to_claims_dict p)
        ≡ some (without_empty p)
  access_read_back p = read_back p (truth p.session_id) (truth p.display_name) (truth p.avatar_url)

  pub refresh_read_back :
      (r : RefreshTokenPayload)
      → refresh_from_claims_dict int_of_float int_of_text (refresh_to_claims_dict r) ≡ some r
  unfolding refresh_from_claims_dict
  refresh_read_back r = refl

  -- The claims of an access token are read back as they were written, whatever they are, save that
  -- an optional claim that is empty is read as None; those of a refresh token are read back whole.
  pub claims_dict_round_trip :
      (p : AccessTokenPayload) (r : RefreshTokenPayload)
      → (access_from_claims_dict int_of_float int_of_text (access_to_claims_dict p)
          ≡ some (without_empty p))
        × (refresh_from_claims_dict int_of_float int_of_text (refresh_to_claims_dict r) ≡ some r)
  claims_dict_round_trip p r = (access_read_back p, refresh_read_back r)
