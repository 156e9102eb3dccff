-- ===== src/Propagation/Examples.antt =====
-- A thread that served alice, and then serves a request of nobody.
use Prim.Native.String.{◌++◌}
use ai_microservices.Base.{none, some, ◌≡◌, refl, true, [], nat_eq, string_eq, pair_eq}
use ai_microservices.Base.Dict.{lookup}
use ai_microservices.Propagation.{
  Context, Globals, Headers, build_outbound_headers, bind_propagation_context,
}
use ai_microservices.Propagation.Outbound.{anonymous_request_keeps_identity}

abbrev alices : Context
alices = record {
  correlation_id = some "c1";
  request_id = some "r1";
  user_id = some "alice";
  traceparent = none;
  bearer_token = some "jwt";
}

abbrev nobody : Globals
nobody = record {
  correlation_id = some "c2";
  request_id = some "r2";
  user_id = none;
  bearer_token = none;
}

abbrev no_headers : Headers
no_headers name = none

anonymous_request_keeps_identity_example :
    (lookup "Authorization" (
        build_outbound_headers "f" "f2" [] true true
          (bind_propagation_context nobody no_headers alices))
      ≡ some ("Bearer " ++ "jwt"))
    × (lookup "X-User-ID" (
          build_outbound_headers "f" "f2" [] true true
            (bind_propagation_context nobody no_headers alices))
        ≡ some "alice")
anonymous_request_keeps_identity_example =
    anonymous_request_keeps_identity nobody no_headers alices "f" "f2" true refl refl refl
