-- ===== src/Propagation/Outbound.antt =====
-- What a service tells another of its caller.
use ai_microservices.Base.{
  String, Option, none, some, Bool, ◌≡◌, inl, inr, true, [], arith, if◌then◌else◌, Bool-cases,
  nat_eq, string_eq, ◌==◌, pair_eq, refl, ap, ◌∙◌, false, ◌∷◌,
}
use ai_microservices.Base.Dict.{Dict, lookup, erase, lookup-insert, lookup-erase}
use ai_microservices.Base.Text.{truthy}
use ai_microservices.Propagation.{
  Context, Globals, Headers, bound, build_outbound_headers, bind_propagation_context,
  client_headers, celery_headers_from_context, apply_celery_headers, set_request_context,
  with_header, with_bearer, update, get_correlation_id, get_request_id, or_else, token_of,
  or_absent,
}
use Prim.Native.String.{◌++◌}

-- a header is there if its value is no empty text
abbrev pub shown : Option String → Option String
shown none = none
shown (some value) = if truthy value then some value else none

abbrev pub bearer : Option String → Option String
bearer none = none
bearer (some token) = if truthy token then some ("Bearer " ++ token) else none

lookup-with_header :
    (k key : String) (o : Option String) (d : Dict String String)
    → lookup k d ≡ none
    → lookup k (with_header key o d) ≡ (if key == k then shown o else none)
lookup-with_header k key none d h = simp h (ground arith)
lookup-with_header k key (some v) d h = elim (Bool-cases (truthy v)) [
  | inl e ↦ simp (e, lookup-insert key k v d, h)
  | inr e ↦ simp (e, h) (ground arith)
]

lookup-with_bearer :
    (o : Option String) (d : Dict String String)
    → lookup "Authorization" d ≡ none
    → lookup "Authorization" (with_bearer o d) ≡ bearer o
lookup-with_bearer none d h = h
lookup-with_bearer (some t) d h = elim (Bool-cases (truthy t)) [
  | inl e ↦ simp (e, lookup-insert)
  | inr e ↦ simp (e, h)
]

other-with_bearer :
    (k : String) (o : Option String) (d : Dict String String)
    → ("Authorization" == k) ≡ false
    → lookup k (with_bearer o d) ≡ lookup k d
other-with_bearer k none d h = refl
other-with_bearer k (some t) d h = elim (Bool-cases (truthy t)) [
  | inl e ↦ simp (e, lookup-insert, h)
  | inr e ↦ simp e
]

-- the headers of a call, from the values that are bound
abbrev written :
    Option String → Option String → Option String → String → String → Dict String String
written token user trace correlation request = with_bearer token (
    with_header "X-User-ID" user (
      with_header "traceparent" trace
        (("X-Correlation-ID", correlation) ∷ ("X-Request-ID", request) ∷ [])))

authorization-written :
    (token user trace : Option String) (correlation request : String)
    → lookup "Authorization" (written token user trace correlation request) ≡ bearer token
authorization-written token user trace correlation request = lookup-with_bearer token _ (
    lookup-with_header "Authorization" "X-User-ID" user _
      (lookup-with_header "Authorization" "traceparent" trace _ refl))

user-written :
    (token user trace : Option String) (correlation request : String)
    → lookup "X-User-ID" (written token user trace correlation request) ≡ shown user
user-written token user trace correlation request =
    other-with_bearer "X-User-ID" token _ refl
    ∙ lookup-with_header "X-User-ID" "X-User-ID" user _
        (lookup-with_header "X-User-ID" "traceparent" trace _ refl)

-- After a request, what is bound for the next one stays: a request that names no user and brings no
-- token is served with the user and the token of the request that the thread served before, and the
-- calls it makes to other services say so.
pub anonymous_request_keeps_identity :
    (g : Globals) (headers : Headers) (ctx : Context) (fresh fresh' : String)
    (new_request_id : Bool)
    → g.user_id ≡ none
    → g.bearer_token ≡ none
    → headers "Authorization" ≡ none
    → (lookup "Authorization" (
          build_outbound_headers fresh fresh' [] true new_request_id
            (bind_propagation_context g headers ctx))
        ≡ bearer ctx.bearer_token)
      × (lookup "X-User-ID" (
            build_outbound_headers fresh fresh' [] true new_request_id
              (bind_propagation_context g headers ctx))
          ≡ shown ctx.user_id)
unfolding build_outbound_headers bind_propagation_context set_request_context
anonymous_request_keeps_identity g headers ctx fresh fresh' new_request_id user token auth =
    let t : bound (or_else g.bearer_token (token_of (or_absent (headers "Authorization"))))
          ctx.bearer_token
        ≡ ctx.bearer_token =
      simp (token, auth) in
    let u : bound g.user_id ctx.user_id ≡ ctx.user_id = simp user in
    (authorization-written _ _ _ _ _ ∙ ap bearer t, user-written _ _ _ _ _ ∙ ap shown u)

erased : (d : Dict String String) → lookup "Authorization" (erase "Authorization" d) ≡ none
erased d = lookup-erase "Authorization" "Authorization" d

-- A call that is made without authorization carries no Authorization header, whatever headers it is
-- given and whatever is bound; a call with authorization that is given no headers carries the token
-- that is bound, if there is one.
pub client_authorization :
    (fresh fresh' : String) (default_headers headers : Dict String String) (ctx : Context)
    → (lookup "Authorization" (client_headers fresh fresh' default_headers headers false ctx)
        ≡ none)
      × (lookup "Authorization" (client_headers fresh fresh' [] [] true ctx)
          ≡ bearer ctx.bearer_token)
unfolding client_headers build_outbound_headers
client_authorization fresh fresh' default_headers headers ctx = (
  erased (update default_headers (build_outbound_headers fresh fresh' headers false true ctx)),
  authorization-written _ _ _ _ _,
)

-- the context of a worker of Celery once the headers are applied
abbrev pub restored : Option String → Option String → String → String → Context → Context
restored user trace correlation request ctx = record {
  correlation_id = some correlation;
  request_id = some request;
  user_id = bound (shown user) ctx.user_id;
  traceparent = bound (shown trace) ctx.traceparent;
  bearer_token = ctx.bearer_token;
}

applied :
    (user trace : Option String) (correlation request : String) (ctx : Context)
    → apply_celery_headers
        (with_header "traceparent" trace (
          with_header "user_id" user
            (("correlation_id", correlation) ∷ ("request_id", request) ∷ [])))
        ctx
      ≡ restored user trace correlation request ctx
unfolding apply_celery_headers set_request_context
applied none none correlation request ctx = refl
applied none (some t) correlation request ctx = elim (Bool-cases (truthy t)) [
  | inl e ↦ simp e
  | inr e ↦ simp e
]
applied (some u) none correlation request ctx = elim (Bool-cases (truthy u)) [
  | inl e ↦ simp e
  | inr e ↦ simp e
]
applied (some u) (some t) correlation request ctx = elim (Bool-cases (truthy u)) [
  | inl e ↦ elim (Bool-cases (truthy t)) [ inl q ↦ simp (e, q) | inr q ↦ simp (e, q) ]
  | inr e ↦ elim (Bool-cases (truthy t)) [ inl q ↦ simp (e, q) | inr q ↦ simp (e, q) ]
]

-- A task of Celery that applies the headers made from a context has its correlation and its request,
-- and its user and its trace where these are no empty texts; what the context lacks stays as the
-- worker had it, and so does the token, which the headers leave out.
pub celery_round_trip :
    (fresh fresh' : String) (ctx worker : Context)
    → apply_celery_headers (celery_headers_from_context fresh fresh' ctx) worker
      ≡ restored ctx.user_id ctx.traceparent
          (get_correlation_id fresh ctx)
          (get_request_id fresh' ctx)
          worker
unfolding celery_headers_from_context
celery_round_trip fresh fresh' ctx worker =
    applied ctx.user_id ctx.traceparent (get_correlation_id fresh ctx) (get_request_id fresh' ctx)
      worker
