-- ===== src/Tests/Admissions.antt =====
-- A workload with an SVID is served by a sidecar.
use zta_core.Base.{
  ℕ, String, ◌≡◌, ◌≢◌, refl, sym, ap, Bool, true, false, Option, none, some, List, [], ◌∷◌, Result,
  ok,
}
use zta_core.Json.{str, obj, end, field}
use zta_core.Http.{HttpRequest, Headers, header}
use zta_core.Authzen.{Request}
use zta_core.Authzen.Encode.{wire_request}
use zta_core.Caep.Cache.{Cache, new_cache, apply, apply_all, is_revoked}
use zta_core.Caep.Cache.Laws.{StandsRevoked, is_revoked_iff}
use zta_core.Pdp.{evaluate}
use zta_core.Pep.{Route, match_route, build_request}
use zta_core.Pep.Check.{correlation}
use zta_core.Pep.Middleware.{serve}
use zta_core.Sidecar.{Pdp, guarded, routes, guard_config, handle}
use zta_core.Sidecar.System.{asked_at}
use zta_core.Sidecar.History.{Reach, start, pushed, next, event_of}
use zta_core.Sidecar.Admission.{Reach-serves}
use zta_core.Spiffe.{id_text, mint}
use zta_core.Spiffe.Peer.{ReadsIds}
use zta_core.Tests.Toys.{
  toy_hash, claims_codec, event_codec, platform, service, view_claims, view_response,
}
use zta_core.Tests.Sidecars.{signal}
use zta_core.Tests.Enforcement.{call_with}
use zta_core.Tests.Grants.{inner, mesh, other_out}
use zta_core.Tests.Issuance.{
  work, toy_library, toy_library-id, toy_library-IsX509, authority, authority-IsAuthority, dice,
  worker,
}

abbrev asked : Pdp
asked = asked_at (platform view_claims) mesh service (event_codec other_out) 0

abbrev mesh_call : HttpRequest
mesh_call = record (call_with "") { tls = some ((86500 ∷ []) ∷ []) }

abbrev cache : Cache
cache =
    next mesh toy_hash (claims_codec view_claims) (event_codec other_out) asked inner 6000000000 []
      new_cache signal

other_brings :
    event_of mesh toy_hash (claims_codec view_claims) (event_codec other_out) asked inner signal
    ≡ some other_out
unfolding zta_core.Caep.Tokens.verify zta_core.Signed.unseal zta_core.Base.Text.cut
    zta_core.Base.Text.Trim.trim_space zta_core.Base64.decode
other_brings = refl

other_reached :
    Reach mesh toy_hash
      (claims_codec view_claims)
      (event_codec other_out)
      asked
      inner
      cache
      (other_out ∷ [])
other_reached = pushed 6000000000 [] signal other_out other_brings start

u-1_free : ¬ StandsRevoked (header "X-Vsp-Subject-Id" mesh_call.headers) (other_out ∷ [])
unfolding header apply_all apply is_revoked
u-1_free h = differ ((is_revoked_iff "u-1" (other_out ∷ [])).1 h)
  where
    differ : ◌≢◌ {A = Bool} false true
    differ x = cc

worker_minted : mint toy_library authority 100000000000 dice work ≡ ok worker
unfolding mint
worker_minted = refl

mesh-ReadsIds : ReadsIds toy_library mesh
mesh-ReadsIds c id parsed read uris = ap some (sym (toy_library-id (id_text id) id read).0)

abbrev view_route : Route
view_route = record {
  method = "GET";
  path = "/view";
  action = "acct:view";
  resource_type = "acct:wallet";
  resource_props = [];
}

route_found : match_route (routes inner) "GET" "/view" ≡ some view_route
unfolding match_route routes
route_found = refl

abbrev inner_request : Request
inner_request = record {
  subject = record {
    kind = "user";
    id = "u-1";
    properties = some (
        field "auth_assurance_level" (str "AAL2")
          (field "act" (obj (field "type" (str "workload") (field "id" (str work) end))) end));
  };
  action = record { name = "acct:view"; properties = some (field "method" (str "GET") end) };
  resource = record { kind = "acct:wallet"; id = "w-1"; properties = some end };
  context = some (
      field "authz_profile" (str "east_west") (
        field "correlation_id" (str "c-1")
          (field "pep" (obj (field "id" (str "edge-1") end)) end)));
}

request_built :
    (build_request mesh
      (guard_config mesh toy_hash
        (claims_codec view_claims)
        (event_codec other_out)
        asked
        inner
        0
        cache)
      mesh_call
      view_route
      (correlation [] mesh_call)
      work).0
    ≡ ok inner_request
unfolding build_request zta_core.Pep.resource_props zta_core.Pep.request_with header
    zta_core.Pep.subject_properties zta_core.Pep.request_context guard_config zta_core.Json.put
request_built = refl

request_granted :
    evaluate (platform view_claims) service 0 (wire_request inner_request) ≡ ok view_response
unfolding evaluate zta_core.Authzen.Validate.validate wire_request
    zta_core.Authzen.Validate.is_colon_pair zta_core.Authzen.Validate.domain_of
    zta_core.Authzen.authz_profile zta_core.Json.get zta_core.Json.Canon.canon_fields
    zta_core.Json.Canon.place zta_core.Json.Order.before zta_core.Pdp.to_input zta_core.Pdp.assemble
    zta_core.Token.issue zta_core.Token.stamped zta_core.Pdp.claims_for
    zta_core.Authzen.auth_assurance_level zta_core.Token.resource_digest
    zta_core.Authzen.Encode.action_fields zta_core.Authzen.Encode.request_fields
    zta_core.Authzen.Encode.resource_fields zta_core.Authzen.Encode.subject_fields
    zta_core.Authzen.Validate.issues zta_core.Authzen.Validate.name_token
    zta_core.Authzen.correlation_id zta_core.Base.Text.cut zta_core.Base.Text.split
    zta_core.Base64.encode zta_core.Json.Render.marshal_map zta_core.Json.Render.quoted
    zta_core.Json.Render.render zta_core.Pdp.to_obligations zta_core.Signed.seal
    zta_core.Token.ttl_seconds
request_granted = refl

no_token : header "X-Decision-Token" mesh_call.headers ≡ ""
unfolding header
no_token = refl

no_event : ◌≢◌ {A = String} "/view" "/events"
no_event h = cc

no_health : ◌≢◌ {A = String} "/view" "/healthz"
no_health h = cc

Reach-serves_example :
    (q : HttpRequest) × (hs : Headers) × (handle mesh toy_hash
        (claims_codec view_claims)
        (event_codec other_out)
        asked
        inner
        0
        []
        cache
        mesh_call
      ≡ (guarded (some (serve q hs)), cache))
Reach-serves_example =
    Reach-serves (platform view_claims) mesh service (event_codec other_out) toy_library
      toy_library-IsX509 mesh-ReadsIds authority 100000000000 dice work worker inner cache
      (other_out ∷ []) 0 [] mesh_call view_route inner_request view_response authority-IsAuthority
      worker_minted refl other_reached refl no_event no_health u-1_free route_found request_built
      no_token request_granted refl
