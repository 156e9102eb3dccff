-- ===== src/Propagation.antt =====
-- shared/shared_http/src/propagation.py, client.py, and the hook of
-- services/api_service/src/presentation/middleware/identity.py. A thread that serves requests keeps its
-- context variables from one request to the next. `uuid4` is an argument.
pub mod Outbound
mod Examples
use Prim.Native.String.{◌++◌}
use ai_microservices.Base.{
  String, ℕ, Bool, Option, none, some, List, [], ◌∷◌, zero, suc, true, if◌then◌else◌, nat_eq,
  string_eq, pair_eq,
}
use ai_microservices.Base.Dict.{Dict, lookup, insert, erase}
use ai_microservices.Base.Text.{truthy, strip}
use ai_microservices.Base.Text.Search.{begins}

-- the five context variables
pub record Context : Type 0 where
  pub correlation_id : Option String
  pub request_id : Option String
  pub user_id : Option String
  pub traceparent : Option String
  pub bearer_token : Option String

-- `if value is not None: variable.set(value)`
abbrev pub bound : Option String → Option String → Option String
bound none old = old
bound (some value) old = some value

unfoldable pub set_request_context : Context → Context → Context
set_request_context values ctx = record {
  correlation_id = bound values.correlation_id ctx.correlation_id;
  request_id = bound values.request_id ctx.request_id;
  user_id = bound values.user_id ctx.user_id;
  traceparent = bound values.traceparent ctx.traceparent;
  bearer_token = bound values.bearer_token ctx.bearer_token;
}

-- `value or other`, for a value that may be None
abbrev pub or_else : Option String → Option String → Option String
or_else none other = other
or_else (some value) other = if truthy value then some value else other

abbrev pub or_text : Option String → String → String
or_text none default = default
or_text (some value) default = if truthy value then value else default

abbrev pub get_correlation_id : String → Context → String
get_correlation_id fresh ctx = or_text ctx.correlation_id (or_text ctx.request_id fresh)

abbrev pub get_request_id : String → Context → String
get_request_id fresh ctx = or_text ctx.request_id fresh

-- `if value: headers[key] = value`
abbrev pub with_header : String → Option String → Dict String String → Dict String String
with_header key none headers = headers
with_header key (some value) headers = if truthy value then insert key value headers else headers

abbrev pub with_bearer : Option String → Dict String String → Dict String String
with_bearer none headers = headers
with_bearer (some token) headers =
    if truthy token then insert "Authorization" ("Bearer " ++ token) headers else headers

-- `headers.update(extra)`
abbrev pub update : Dict String String → Dict String String → Dict String String
update [] headers = headers
update ((k, v) ∷ extra) headers = update extra (insert k v headers)

abbrev pub token_if : Bool → Context → Option String
token_if include_auth ctx = if include_auth then ctx.bearer_token else none

-- the two fresh identifiers are for the correlation and for the request
unfoldable pub build_outbound_headers :
    String → String → Dict String String → Bool → Bool → Context → Dict String String
build_outbound_headers fresh fresh' extra include_auth new_request_id ctx =
    let request_id = if new_request_id then fresh' else get_request_id fresh' ctx in
    update extra (
      with_bearer (token_if include_auth ctx) (
        with_header "X-User-ID" ctx.user_id (
          with_header "traceparent" ctx.traceparent (
            ("X-Correlation-ID", get_correlation_id fresh ctx)
            ∷ ("X-Request-ID", request_id)
            ∷ []))))

abbrev drop_chars : ℕ → String → String
drop_chars zero s = s
drop_chars (suc n) String.[] = ""
drop_chars (suc n) (String.◌∷◌ c s) = drop_chars n s

-- `auth[7:].strip() if auth.lower().startswith("bearer ") else None`
abbrev pub token_of : String → Option String
token_of auth = if begins "bearer " auth then some (strip (drop_chars 7 auth)) else none

-- the headers of a request, by name
abbrev pub Headers : Type 0
Headers = String → Option String

unfoldable pub apply_inbound_headers : String → Headers → Context → Context
apply_inbound_headers fresh headers ctx =
    let correlation = or_else (headers "X-Correlation-ID") (headers "x-correlation-id") in
    let request = or_else (headers "X-Request-ID") (headers "x-request-id") in
    let auth = or_text (headers "Authorization") (or_text (headers "authorization") "") in
    set_request_context
      (record {
        correlation_id = or_else correlation request;
        request_id = some (or_text request fresh);
        user_id = none;
        traceparent = headers "traceparent";
        bearer_token = token_of auth;
      })
      ctx

-- `headers.get(key, "")`
abbrev pub or_absent : Option String → String
or_absent none = ""
or_absent (some s) = s

-- the attributes of Flask's `g` that are read
pub record Globals : Type 0 where
  pub correlation_id : Option String
  pub request_id : Option String
  pub user_id : Option String
  pub bearer_token : Option String

unfoldable pub flask_context_from_g : Globals → Context → Context
flask_context_from_g g ctx =
    set_request_context
      (record {
        correlation_id = g.correlation_id;
        request_id = g.request_id;
        user_id = g.user_id;
        traceparent = none;
        bearer_token = none;
      })
      ctx

-- `_bind_propagation_context` of the api-service
unfoldable pub bind_propagation_context : Globals → Headers → Context → Context
bind_propagation_context g headers ctx =
    set_request_context
      (record {
        correlation_id = g.correlation_id;
        request_id = g.request_id;
        user_id = g.user_id;
        traceparent = headers "traceparent";
        bearer_token = or_else g.bearer_token (token_of (or_absent (headers "Authorization")));
      })
      ctx

unfoldable pub celery_headers_from_context : String → String → Context → Dict String String
celery_headers_from_context fresh fresh' ctx = with_header "traceparent" ctx.traceparent (
    with_header "user_id" ctx.user_id (
      ("correlation_id", get_correlation_id fresh ctx)
      ∷ ("request_id", get_request_id fresh' ctx)
      ∷ []))

-- `if not headers: return`
unfoldable pub apply_celery_headers : Dict String String → Context → Context
apply_celery_headers [] ctx = ctx
apply_celery_headers (h ∷ headers) ctx =
    set_request_context
      (record {
        correlation_id = lookup "correlation_id" (h ∷ headers);
        request_id = lookup "request_id" (h ∷ headers);
        user_id = lookup "user_id" (h ∷ headers);
        traceparent = lookup "traceparent" (h ∷ headers);
        bearer_token = none;
      })
      ctx

-- the headers that `ServiceHttpClient.request` sends
unfoldable pub client_headers :
    String → String → Dict String String → Dict String String → Bool → Context → Dict String String
client_headers fresh fresh' default_headers headers include_auth ctx =
    let outbound =
      update default_headers (build_outbound_headers fresh fresh' headers include_auth true ctx) in
    if include_auth then outbound else erase "Authorization" outbound
