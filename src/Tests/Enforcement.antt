-- ===== src/Tests/Enforcement.antt =====
-- The PEP, and the tokens that come back to it.
use zta_core.Base.{
  ℕ, String, Bool, true, false, ◌≡◌, ◌≢◌, ◌↔◌, ◌⊎◌, refl, inl, inr, Option, none, some, List, [],
  ◌∷◌, ◌==◌, All, Result, ok, err, arith,
}
use zta_core.Json.{bool, Fields, end, field, Map}
use zta_core.Http.{header, HttpRequest, Headers, stream}
use zta_core.Authzen.{profile_edge, profile_east_west, Request, Response}
use zta_core.Authzen.Encode.{wire_request}
use zta_core.Token.{Claims, verify}
use zta_core.Grpc.Laws.{delivered}
use zta_core.Pdp.{evaluate}
use zta_core.Pep.{
  header_decision_token, Route, allow, deny_step_up, Outcome, Platform, Config, new_pep,
}
use zta_core.Pep.Check.{
  Run, evaluate as evaluate_call, because, matches, is_revoked, verify as verify_call,
  try_decision_token, check,
}
use zta_core.Pep.Check.Grounds.{Covers}
use zta_core.Pep.Check.Soundness.{Permitted, check-Permitted}
use zta_core.Pep.Check.Calls.{Cleared, check-Cleared}
use zta_core.Pep.Check.Answered.{Answers, check-Answers}
use zta_core.Pep.Middleware.{serve, refuse, respond, middleware}
use zta_core.Pep.Middleware.Laws.{Enforces, respond-Enforces, middleware-Permitted, IsRefusal}
use zta_core.Pep.Reuse.{reuse, try_decision_token_iff}
use zta_core.Pep.Minted.{minted-reused, minted-reused_ne, minted-reused_grpc}
use zta_core.Tests.Toys.{
  toy_hash, claims_codec, platform, service, quick_issuer, view_request, view_claims, view_token,
  view_response,
}

abbrev pub guard : Platform
guard = record {
  id_from_cert = λ cert. none;
  split_host = λ s. none;
  unmarshal_body = λ s. some none;
  hash = toy_hash;
}

-- The claims of a request whose properties are not nil.
abbrev pub full_claims : Claims
full_claims = record view_claims { res_digest = "Ag" }

abbrev pub edge : Config
edge = record {
  profile = profile_edge;
  pep_id = "edge-1";
  routes =
      (record {
        method = "GET";
        path = "/view";
        action = "acct:view";
        resource_type = "acct:wallet";
        resource_props = [];
      })
      ∷ [];
  pdp = some (λ req. ok view_response);
  attestor = none;
  require_peer_svid = true;
  token_verifier = some (verify toy_hash (claims_codec full_claims) quick_issuer 1000000000);
  revocations = some (λ s. s == "u-2");
}

abbrev headers_of : String → Headers
headers_of tok =
    ("X-Correlation-Id", "c-1")
    ∷ ("X-Vsp-Subject-Id", "u-1")
    ∷ ("X-Vsp-Aal", "AAL2")
    ∷ ("X-Vsp-Resource-Id", "w-1")
    ∷ ("X-Decision-Token", tok)
    ∷ []

abbrev pub call_with : String → HttpRequest
call_with tok = record {
  method = "GET";
  path = "/view";
  headers = headers_of tok;
  remote_addr = "10.0.0.1:9";
  tls = none;
  body = stream "hi";
}

abbrev edge_request : Request
edge_request = record (view_request (some end)) {
  context = some (
      field "authz_profile" (zta_core.Json.str "edge") (
        field "correlation_id" (zta_core.Json.str "c-1") (
          field "pep" (zta_core.Json.obj (field "id" (zta_core.Json.str "edge-1") end))
            (field "source_ip" (zta_core.Json.str "10.0.0.1:9") end))));
}

abbrev pub edge_run : Run
edge_run = record {
  outcome = record (because allow "ok" "c-1") { decision_token = "Bw.AQ" };
  calls = is_revoked "u-1" ∷ evaluate_call edge_request ∷ [];
  request = call_with "";
}

edge_checked : check guard edge [] (call_with "") ≡ some edge_run
unfolding check zta_core.Pep.Check.check_route zta_core.Pep.match_route
    zta_core.Pep.Check.check_revoked zta_core.Http.header zta_core.Pep.Check.check_l2
    zta_core.Pep.build_request zta_core.Pep.resource_props try_decision_token zta_core.Pep.Check.ask
    zta_core.Pep.Check.classify zta_core.Pep.request_with zta_core.Pep.subject_properties
    zta_core.Pep.request_context zta_core.Json.put zta_core.Pep.client_ip
edge_checked = refl

check-Permitted_example : Permitted guard edge [] (call_with "")
check-Permitted_example = check-Permitted guard edge [] (call_with "") edge_run edge_checked refl

check-Cleared_example : All (Cleared guard edge [] (call_with "")) edge_run.calls
check-Cleared_example = check-Cleared guard edge [] (call_with "") edge_run edge_checked

edge_made : new_pep edge ≡ ok edge
unfolding new_pep
edge_made = refl

check-Answers_example : Answers (call_with "") (check guard edge [] (call_with ""))
check-Answers_example = check-Answers guard edge edge [] (call_with "") "hi" edge_made refl

middleware-Permitted_example :
    (Permitted guard edge [] (call_with "")
      × ((hs : Headers) × (ws : Headers) × (middleware guard edge [] (call_with "")
            ≡ some (serve (record (call_with "") { headers = hs }) ws))))
    ⊎ ((out : Outcome) × (reply : zta_core.Http.Reply) × (middleware guard edge [] (call_with "")
          ≡ some (refuse reply))
        × IsRefusal profile_edge out reply)
middleware-Permitted_example =
    middleware-Permitted guard edge edge [] (call_with "") "hi" edge_made refl

abbrev step_up_outcome : Outcome
step_up_outcome = record (because deny_step_up "low_aal" "c-1") { required_acr = "AAL3" }

respond-Enforces_example :
    Enforces profile_edge step_up_outcome
      (call_with "")
      (respond profile_edge step_up_outcome (call_with ""))
respond-Enforces_example = respond-Enforces profile_edge step_up_outcome (call_with "")

full_verified :
    verify toy_hash (claims_codec full_claims) quick_issuer 1000000000 "Bw.AQ" ≡ ok full_claims
unfolding verify zta_core.Signed.unseal zta_core.Base.Text.cut zta_core.Base64.decode
full_verified = refl

shown_token : header header_decision_token (headers_of "Bw.AQ") ≢ ""
unfolding header
shown_token h = cc

try_decision_token_iff_example :
    ((try_decision_token guard edge (call_with "Bw.AQ") edge_request "c-1").0
      ≡ some (reuse "Bw.AQ" "c-1"))
    ↔ Covers guard full_claims edge_request
unfolding header
try_decision_token_iff_example =
    try_decision_token_iff guard edge (call_with "Bw.AQ") edge_request "c-1"
      (verify toy_hash (claims_codec full_claims) quick_issuer 1000000000) full_claims refl
      shown_token full_verified

abbrev pub amount : Fields
amount = field "amount" (bool true) end

pub amount_decided :
    evaluate (platform full_claims) service 0 (wire_request (view_request (some amount)))
    ≡ ok view_response
unfolding evaluate zta_core.Authzen.Validate.validate wire_request
    zta_core.Authzen.Validate.is_colon_pair zta_core.Authzen.Validate.domain_of
    zta_core.Authzen.authz_profile zta_core.Json.get zta_core.Json.Canon.canon_fields
    zta_core.Json.Canon.place zta_core.Json.Order.before zta_core.Pdp.to_input zta_core.Pdp.assemble
    zta_core.Token.issue zta_core.Token.stamped zta_core.Pdp.claims_for
    zta_core.Authzen.auth_assurance_level zta_core.Token.resource_digest
    zta_core.Authzen.Encode.action_fields zta_core.Authzen.Encode.request_fields
    zta_core.Authzen.Encode.resource_fields zta_core.Authzen.Encode.subject_fields
    zta_core.Authzen.Validate.issues zta_core.Authzen.Validate.name_token
    zta_core.Authzen.correlation_id zta_core.Base.Text.cut zta_core.Base.Text.split
    zta_core.Base64.encode zta_core.Json.Render.marshal_map zta_core.Json.Render.quoted
    zta_core.Json.Render.render zta_core.Pdp.to_obligations zta_core.Signed.seal
    zta_core.Token.ttl_seconds
amount_decided = refl

minted-reused_example :
    (try_decision_token guard edge (call_with "Bw.AQ") (view_request (some amount)) "c-1").0
    ≡ some (reuse "Bw.AQ" "c-1")
unfolding zta_core.Http.header
minted-reused_example =
    minted-reused (platform full_claims) guard service 0 1000000000 view_response view_token
      quick_issuer edge (call_with "Bw.AQ") (view_request (some amount)) "c-1" "amount" (bool true)
      end refl refl amount_decided refl refl refl refl (omega arith)

abbrev nil_edge : Config
nil_edge = record edge {
  token_verifier = some (verify toy_hash (claims_codec view_claims) quick_issuer 1000000000);
}

empty_decided :
    evaluate (platform view_claims) service 0 (wire_request (view_request (some end)))
    ≡ ok view_response
unfolding evaluate zta_core.Authzen.Validate.validate wire_request
    zta_core.Authzen.Validate.is_colon_pair zta_core.Authzen.Validate.domain_of
    zta_core.Authzen.authz_profile zta_core.Json.get zta_core.Json.Canon.canon_fields
    zta_core.Json.Canon.place zta_core.Json.Order.before zta_core.Pdp.to_input zta_core.Pdp.assemble
    zta_core.Token.issue zta_core.Token.stamped zta_core.Pdp.claims_for
    zta_core.Authzen.auth_assurance_level zta_core.Token.resource_digest
    zta_core.Authzen.Encode.action_fields zta_core.Authzen.Encode.request_fields
    zta_core.Authzen.Encode.resource_fields zta_core.Authzen.Encode.subject_fields
    zta_core.Authzen.Validate.issues zta_core.Authzen.Validate.name_token
    zta_core.Authzen.correlation_id zta_core.Base.Text.cut zta_core.Base.Text.split
    zta_core.Base64.encode zta_core.Json.Render.marshal_map zta_core.Json.Render.quoted
    zta_core.Json.Render.render zta_core.Pdp.to_obligations zta_core.Signed.seal
    zta_core.Token.ttl_seconds
empty_decided = refl

minted-reused_ne_example :
    (try_decision_token guard nil_edge (call_with "Bw.AQ") (view_request (some end)) "c-1").0
    ≢ some (reuse "Bw.AQ" "c-1")
unfolding zta_core.Http.header
minted-reused_ne_example =
    minted-reused_ne (platform view_claims) guard service 0 1000000000 view_response view_token
      quick_issuer nil_edge (call_with "Bw.AQ") (view_request (some end)) "c-1" refl
      (omega arith, tt) (omega arith, tt) (λ h. cc) refl empty_decided refl refl refl refl
      (omega arith)

delivered_decided :
    evaluate (platform full_claims) service 0 (delivered (view_request (some end)))
    ≡ ok view_response
unfolding evaluate zta_core.Authzen.Validate.validate zta_core.Authzen.Validate.is_colon_pair
    zta_core.Authzen.Validate.domain_of zta_core.Authzen.authz_profile zta_core.Json.get
    zta_core.Pdp.to_input zta_core.Pdp.assemble zta_core.Token.issue zta_core.Token.stamped
    zta_core.Pdp.claims_for zta_core.Authzen.auth_assurance_level zta_core.Token.resource_digest
    zta_core.Base64.encode zta_core.Json.Render.marshal_map zta_core.Json.Render.render
    zta_core.Json.Canon.canon_fields zta_core.Authzen.Encode.action_fields
    zta_core.Authzen.Encode.request_fields zta_core.Authzen.Encode.resource_fields
    zta_core.Authzen.Encode.subject_fields zta_core.Authzen.Validate.issues
    zta_core.Authzen.Validate.name_token zta_core.Authzen.correlation_id zta_core.Base.Text.cut
    zta_core.Base.Text.split zta_core.Json.Canon.place zta_core.Json.Order.before
    zta_core.Json.Render.quoted zta_core.Pdp.to_obligations zta_core.Signed.seal
    zta_core.Token.ttl_seconds
delivered_decided = refl

minted-reused_grpc_example :
    (try_decision_token guard edge (call_with "Bw.AQ") (view_request (some end)) "c-1").0
    ≡ some (reuse "Bw.AQ" "c-1")
unfolding zta_core.Http.header
minted-reused_grpc_example =
    minted-reused_grpc (platform full_claims) guard service 0 1000000000 view_response view_token
      quick_issuer edge (call_with "Bw.AQ") (view_request (some end)) "c-1" end refl refl
      delivered_decided refl refl refl refl (omega arith)
