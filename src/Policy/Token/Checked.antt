-- ===== src/Policy/Token/Checked.antt =====
-- What `validate_token` and `extract_bearer_token` of shared/shared_auth/jwt_handler.py accept.
use Prim.Native.Char.{Char, code}
use Prim.Native.String.{◌++◌}
use package.text.Mathlib.TextLemmas.{cons-append}
use ai_microservices.Base.Text.{is_space}
use ai_microservices.Base.Text.{truthy, strip}
use mathlib.Core.Option.{some-injective}
use mathlib.Core.Path.{subst}
use ai_microservices.Base.Maybe.{bind_some}
use ai_microservices.Base.{
  ℕ, true, some, [], string_eq, ◌≡◌, ◌≢◌, String, inl, inr, Option, none, List, ◌∷◌, Option-cases,
  refl, ap, not, ◌||◌, eq_iff, Bool-cases, if◌then◌else◌,
}
use ai_microservices.Base.Text.Split.{HasNoBlank, split_two}
use ai_microservices.Base.Value.{Fields, text, get, Value}
use ai_microservices.Policy.Roles.{AuthContext, aware, Moment, Role}
use ai_microservices.Policy.Token.{
  extra_claims, is_bearer, extract_bearer_token, crashed, expired_signature, invalid_signature,
  decode_error, invalid, denied, has_required_claims, roles_of, as_text, auth_context, moment,
  constructed, with_roles, Outcome, validate_token, is_text, validate_signature, Decoded, checked,
  claims, optional_text, trusted, passed, extract_bearer_token, invalid_token,
}

-- What the claims of an accepted token are, and what the context takes from them.
pub record IsContextOf (fs : Fields) (c : AuthContext) : Type 0 where
  pub required : has_required_claims fs ≡ true
  pub sub_is : get "sub" fs ≡ some (text c.user_id)
  pub session_is : get "session_id" fs ≡ some (text c.session_id)
  pub jti_is : get "jti" fs ≡ some (text c.jti)
  pub roles_are : roles_of (get "roles" fs) ≡ some c.roles
  pub some_role : c.roles ≢ []
  pub has_zone : (t : ℕ) × (c.expires_at ≡ aware t)
  pub extra_are : c.extra_claims ≡ extra_claims fs

as_text-some : (o : Option Value) (s : String) → as_text o ≡ some s → o ≡ some (text s)
as_text-some none s h = cc
as_text-some (some (text t)) s h = cc
as_text-some (some Value.null) s h = cc
as_text-some (some (Value.bool b)) s h = cc
as_text-some (some (Value.int n)) s h = cc
as_text-some (some (Value.float n)) s h = cc
as_text-some (some (Value.date n)) s h = cc
as_text-some (some (Value.array vs)) s h = cc
as_text-some (some (Value.object fs)) s h = cc

module _ (fromtimestamp : Value → Option ℕ) where
  moment-some :
      (o : Option Value) (m : Moment) → moment fromtimestamp o ≡ some m → (t : ℕ) × (m ≡ aware t)
  moment-some none m h = cc
  moment-some (some v) m h = elim (Option-cases (fromtimestamp v)) [
    | inl e ↦ cc (simp (moment, e) at h)
    | inr (t, e) ↦ (t, cc (simp (moment, e) at h))
  ]

  auth_context-IsContextOf :
      (fs : Fields) (r : Role) (rs : List Role) (c : AuthContext)
      → has_required_claims fs ≡ true
      → roles_of (get "roles" fs) ≡ some (r ∷ rs)
      → auth_context fromtimestamp fs (r ∷ rs) ≡ some c
      → IsContextOf fs c
  unfolding auth_context
  auth_context-IsContextOf fs r rs c required roles h =
      let (sub, p1, h1) = bind_some (as_text (get "sub" fs)) _ c h in
      let (session, p2, h2) = bind_some (as_text (get "session_id" fs)) _ c h1 in
      let (iat, p3, h3) = bind_some (moment fromtimestamp (get "iat" fs)) _ c h2 in
      let (exp, p4, h4) = bind_some (moment fromtimestamp (get "exp" fs)) _ c h3 in
      let (jti, p5, h5) = bind_some (as_text (get "jti" fs)) _ c h4 in
      let (email, p6, h6) = bind_some (optional_text (get "email" fs)) _ c h5 in
      let (provider, p7, h7) = bind_some (optional_text (get "provider" fs)) _ c h6 in
      subst (IsContextOf fs) (some-injective _ _ h7) (record {
        required = required;
        sub_is = as_text-some _ sub p1;
        session_is = as_text-some _ session p2;
        jti_is = as_text-some _ jti p5;
        roles_are = roles;
        some_role = λ e. cc;
        has_zone = moment-some _ exp p4;
        extra_are = refl;
      })

  constructed_passed :
      (o : Option AuthContext) (c : AuthContext)
      → constructed fromtimestamp o ≡ passed c
      → o ≡ some c
  constructed_passed none c h = cc
  constructed_passed (some d) c h = cc

  with_roles_passed :
      (fs : Fields) (o : Option (List Role)) (c : AuthContext)
      → with_roles fromtimestamp fs o ≡ passed c
      → (r : Role) × (rs : List Role) × (o ≡ some (r ∷ rs))
        × (auth_context fromtimestamp fs (r ∷ rs) ≡ some c)
  with_roles_passed fs none c h = cc
  with_roles_passed fs (some []) c h = cc
  with_roles_passed fs (some (r ∷ rs)) c h = (r, rs, refl, constructed_passed _ c h)

  checked_passed :
      (d : Outcome Decoded) (c : AuthContext)
      → checked fromtimestamp d ≡ passed c
      → (fs : Fields) × (d ≡ passed (claims fs)) × IsContextOf fs c
  checked_passed crashed c h = cc
  checked_passed (denied e) c h = cc
  checked_passed (passed expired_signature) c h = cc
  checked_passed (passed invalid_signature) c h = cc
  checked_passed (passed decode_error) c h = cc
  checked_passed (passed invalid) c h = cc
  checked_passed (passed (claims fs)) c h = elim (Bool-cases (has_required_claims fs)) [
    | inr e ↦ cc (simp (checked, e) at h)
    | inl e ↦
        let (r, rs, p, q) =
          with_roles_passed fs (roles_of (get "roles" fs)) c (simp (checked, e) at h) in
        (fs, refl, auth_context-IsContextOf fs r rs c e p q)
  ]

  pub validate_token_passed :
      (signature : String → Outcome Decoded) (token : String) (c : AuthContext)
      → validate_token fromtimestamp signature token ≡ passed c
      → (fs : Fields) × (signature token ≡ passed (claims fs)) × IsContextOf fs c
  unfolding validate_token
  validate_token_passed signature token c h =
      elim (Bool-cases (not (truthy token) || not (truthy (strip token)))) [
        | inl e ↦ cc (simp (validate_token, e) at h)
        | inr e ↦ checked_passed (signature token) c (simp (validate_token, e) at h)
      ]

is_text_iff : (s : String) (o : Option Value) → is_text s o ≡ true → o ≡ some (text s)
is_text_iff s (some (text t)) h = ap (λ z. some (text z)) ((eq_iff t s).0 h)
is_text_iff s none h = cc
is_text_iff s (some Value.null) h = cc
is_text_iff s (some (Value.bool b)) h = cc
is_text_iff s (some (Value.int n)) h = cc
is_text_iff s (some (Value.float n)) h = cc
is_text_iff s (some (Value.date n)) h = cc
is_text_iff s (some (Value.array vs)) h = cc
is_text_iff s (some (Value.object fs)) h = cc

-- what `validate_signature` passes on has been decoded, from the issuer and for the audience
trusted_passed :
    (issuer audience : String) (d : Decoded) (fs : Fields)
    → trusted issuer audience d ≡ passed (claims fs)
    → (d ≡ claims fs) × (get "iss" fs ≡ some (text issuer)) × (get "aud" fs ≡ some (text audience))
trusted_passed issuer audience (claims gs) fs h =
    elim (Bool-cases (is_text issuer (get "iss" gs))) [
      | inr e ↦ cc (simp (trusted, e) at h)
      | inl e ↦ elim (Bool-cases (is_text audience (get "aud" gs))) [
        | inr e' ↦ cc (simp (trusted, e, e') at h)
        | inl e' ↦
            let q : gs ≡ fs = cc (simp (trusted, e, e') at h) in
            (
              ap (λ z. claims z) q,
              rw⁻¹ q (is_text_iff issuer (get "iss" gs) e),
              rw⁻¹ q (is_text_iff audience (get "aud" gs) e'),
            )
      ]
    ]
trusted_passed issuer audience expired_signature fs h = cc
trusted_passed issuer audience invalid_signature fs h = cc
trusted_passed issuer audience decode_error fs h = cc
trusted_passed issuer audience invalid fs h = cc

-- A token that is accepted has been decoded by the library to claims that name the issuer and the
-- audience and have all the required ones; the context has the user, the session and the token
-- that they name, and the roles that they list, one at least, and an expiry with a time zone.
pub accepted_token :
    (fromtimestamp : Value → Option ℕ) (decode : String → Decoded) (issuer audience token : String)
    (c : AuthContext)
    → validate_token fromtimestamp (validate_signature decode issuer audience) token ≡ passed c
    → (fs : Fields) × (decode token ≡ claims fs)
      × (get "iss" fs ≡ some (text issuer))
      × (get "aud" fs ≡ some (text audience))
      × IsContextOf fs c
unfolding validate_signature
accepted_token fromtimestamp decode issuer audience token c h =
    let (fs, p, q) =
      validate_token_passed fromtimestamp (validate_signature decode issuer audience) token c h in
    let (d, i, a) = trusted_passed issuer audience (decode token) fs p in (fs, d, i, a, q)

truthy_behind : (w t : String) → truthy w ≡ true → truthy (w ++ t) ≡ true
truthy_behind String.[] t h = cc
truthy_behind (String.◌∷◌ c w) t h = simp (cons-append c w t)

-- A header of two words with one blank between them, of which the first is "bearer" in any case, gives
-- the second as the token; where the first is another word, the header is refused as invalid.
pub extract_bearer :
    (scheme token : String) (c : Char)
    → HasNoBlank scheme
    → HasNoBlank token
    → truthy scheme ≡ true
    → truthy token ≡ true
    → is_space (code c) ≡ true
    → extract_bearer_token (scheme ++ String.◌∷◌ c token)
      ≡ (if is_bearer scheme then passed token else denied invalid_token)
unfolding extract_bearer_token
extract_bearer scheme token c h k t u b =
    simp (truthy_behind scheme (String.◌∷◌ c token) t, split_two scheme token c h k t u b)
