-- ===== src/Tests/Grants.antt =====
-- A PEP with its PDP, and a sidecar of the mesh with both.
use zta_core.Base.{
  ℕ, String, ◌≡◌, ◌≢◌, refl, sym, ap, subst, ◌∙◌, ◌⊎◌, inl, inr, Bool, true, false, Option, none,
  some, List, [], ◌∷◌, appended, Result, ok, err, arith,
}
use zta_core.Base.Text.{dot, cut}
use zta_core.Base64.{Bytes}
use zta_core.Http.{HttpRequest, Headers, header, set_header}
use zta_core.Authzen.{profile_east_west, Request}
use zta_core.Authzen.Encode.{wire_request}
use zta_core.Token.{verify}
use zta_core.Pdp.{evaluate}
use zta_core.Caep.Cache.{Event, Cache, new_cache, apply, is_revoked}
use zta_core.Pep.{Platform, header_caller_spiffe, Config, Route, allow, match_route, build_request}
use zta_core.Pep.Check.{
  Run, correlation, check, is_revoked as is_revoked_call, verify as verify_call,
}
use zta_core.Pep.Reuse.{reuse}
use zta_core.Pep.Check.Soundness.{caller_of}
use zta_core.Pep.Middleware.{serve, middleware}
use zta_core.Pep.Genuine.{SignedBody, IsGenuine, GrantedBefore}
use zta_core.Pep.Sanction.{Granted, check-Granted}
use zta_core.Sidecar.{guarded, guard_config, handle}
use zta_core.Sidecar
use zta_core.Sidecar.System.{asked_at, Sanctioned, Reach-Sanctioned}
use zta_core.Sidecar.History.{Reach, start, pushed, next, event_of}
use zta_core.Tests.Toys.{
  toy_hash, claims_codec, event_codec, platform, service, quick_issuer, view_request, view_token,
  view_response,
}
use zta_core.Tests.Sidecars.{gateway, signal, named_secret, named_user}
use zta_core.Tests.Enforcement.{guard, edge, full_claims, amount, amount_decided, call_with}

-- A second after the token was minted.
abbrev later : ℕ
later = 1000000000

-- Every token here is the one that the PDP minted at 0.
genuine_body :
    (F : Platform) (body sig : String)
    → cut dot "Bw.AQ" ≡ some (body, sig)
    → SignedBody (platform full_claims) F service later body
unfolding cut
genuine_body F body sig parted = record {
  at = 0;
  earlier = omega arith;
  sent = wire_request (view_request (some amount));
  resp = view_response;
  token = view_token;
  sig = sig;
  answered = amount_decided;
  minted = refl;
  parted = parted;
}

abbrev asking : Config
asking = record edge {
  pdp = some (λ req. evaluate (platform full_claims) service later (wire_request req));
  token_verifier = some (verify toy_hash (claims_codec full_claims) quick_issuer later);
}

abbrev reused_run : Run
reused_run = record {
  outcome = reuse "Bw.AQ" "c-1";
  calls = is_revoked_call "u-1" ∷ verify_call "Bw.AQ" ∷ [];
  request = call_with "Bw.AQ";
}

granted_before : check guard asking [] (call_with "Bw.AQ") ≡ some reused_run
unfolding check zta_core.Pep.Check.check_route match_route zta_core.Pep.Check.check_revoked header
    zta_core.Pep.Check.check_l2 build_request zta_core.Pep.resource_props
    zta_core.Pep.Check.try_decision_token verify zta_core.Signed.unseal cut zta_core.Base64.decode
    zta_core.Pep.Check.matches zta_core.Pep.request_with zta_core.Token.resource_digest
    zta_core.Base64.encode zta_core.Json.Render.marshal_map zta_core.Authzen.auth_assurance_level
    zta_core.Json.Canon.canon_fields zta_core.Json.Canon.place zta_core.Json.Order.before
    zta_core.Json.Render.quoted zta_core.Json.Render.render zta_core.Json.get zta_core.Json.put
    zta_core.Pep.Check.aal_rank zta_core.Pep.Check.ask zta_core.Pep.Check.classify
    zta_core.Pep.Check.hex zta_core.Pep.Check.new_correlation_id zta_core.Pep.Check.step_up
    zta_core.Pep.client_ip zta_core.Pep.lift zta_core.Pep.peer_identity zta_core.Pep.request_context
    zta_core.Pep.subject_properties
granted_before = refl

presented-IsGenuine :
    IsGenuine
      (platform full_claims)
      guard
      service
      later
      quick_issuer.secret
      (header "X-Decision-Token" (call_with "Bw.AQ").headers)
unfolding header
presented-IsGenuine body sig parted signed = genuine_body guard body sig parted

check-Granted_example :
    (route : Route) × (req : Request) × (match_route asking.routes "GET" "/view" ≡ some route)
    × ((build_request guard asking
          (call_with "Bw.AQ")
          route
          (correlation [] (call_with "Bw.AQ"))
          (caller_of guard asking (call_with "Bw.AQ"))).0
        ≡ ok req)
    × (Granted (platform full_claims) guard service later (wire_request req)
        ⊎ GrantedBefore
            (platform full_claims)
            guard
            service
            later
            (header "X-Decision-Token" (call_with "Bw.AQ").headers)
            req)
check-Granted_example =
    check-Granted (platform full_claims) guard service asking quick_issuer later []
      (call_with "Bw.AQ") reused_run refl refl refl presented-IsGenuine granted_before refl

abbrev pub inner : zta_core.Sidecar.Config
inner = record gateway { profile = profile_east_west; require_peer_svid = true }

abbrev pub mesh : Platform
mesh = record guard { id_from_cert = λ cert. some "spiffe://t/w" }

abbrev inner_call : HttpRequest
inner_call = record (call_with "Bw.AQ") { tls = some ((1 ∷ []) ∷ []) }

abbrev pub other_out : Event
other_out = record { kind = "session-revoked"; subject = "u-9"; issued_at = 5 }

abbrev after_other : Cache
after_other =
    next mesh toy_hash (claims_codec full_claims) (event_codec other_out) (λ req. ok view_response)
      inner 6000000000 [] new_cache signal

other_brings :
    event_of mesh toy_hash
      (claims_codec full_claims)
      (event_codec other_out)
      (λ req. ok view_response)
      inner
      signal
    ≡ some other_out
unfolding zta_core.Caep.Tokens.verify zta_core.Signed.unseal cut zta_core.Base.Text.Trim.trim_space
    zta_core.Base64.decode
other_brings = refl

other_reached :
    Reach mesh toy_hash
      (claims_codec full_claims)
      (event_codec other_out)
      (λ req. ok view_response)
      inner
      after_other
      (other_out ∷ [])
other_reached = pushed 6000000000 [] signal other_out other_brings start

abbrev with_answer : Headers → Headers
with_answer hs = set_header "X-Decision-Token" "Bw.AQ" (set_header "X-Correlation-Id" "c-1" hs)

inner_served :
    (handle mesh toy_hash
      (claims_codec full_claims)
      (event_codec other_out)
      (asked_at (platform full_claims) mesh service (event_codec other_out) later)
      inner
      later
      []
      after_other
      inner_call).0
    ≡ guarded (
        some
          (serve (record inner_call { headers = with_answer inner_call.headers }) (with_answer [])))
unfolding handle middleware check guard_config zta_core.Pep.peer_identity Sidecar.validate_svid
    zta_core.Pep.Check.check_route match_route Sidecar.routes zta_core.Pep.Check.check_revoked
    header is_revoked zta_core.Caep.Receiver.receive zta_core.Caep.Tokens.verify
    zta_core.Signed.unseal cut zta_core.Base.Text.Trim.trim_space zta_core.Base64.decode
    zta_core.Authzen.auth_assurance_level zta_core.Base.Text.Trim.trim_left
    zta_core.Base.Text.Trim.trim_right zta_core.Base64.encode apply zta_core.Http.http_error
    set_header zta_core.Http.without zta_core.Http.write_encoded zta_core.Json.Canon.canon
    zta_core.Json.Canon.canon_fields zta_core.Json.Canon.place zta_core.Json.Order.before
    zta_core.Json.Render.marshal zta_core.Json.Render.marshal_map zta_core.Json.Render.quoted
    zta_core.Json.Render.render zta_core.Json.get zta_core.Json.put zta_core.Pep.Check.aal_rank
    zta_core.Pep.Check.ask zta_core.Pep.Check.check_l2 zta_core.Pep.Check.classify
    zta_core.Pep.Check.hex zta_core.Pep.Check.matches zta_core.Pep.Check.new_correlation_id
    zta_core.Pep.Check.step_up zta_core.Pep.Check.try_decision_token
    zta_core.Pep.Middleware.challenge zta_core.Pep.Middleware.forward
    zta_core.Pep.Middleware.respond build_request zta_core.Pep.client_ip zta_core.Pep.lift
    zta_core.Pep.request_context zta_core.Pep.request_with zta_core.Pep.resource_props
    zta_core.Pep.subject_properties zta_core.Token.resource_digest verify
inner_served = refl

inner_subject : header "X-Vsp-Subject-Id" inner_call.headers ≡ "u-1"
unfolding header
inner_subject = refl

shown-IsGenuine :
    IsGenuine
      (platform full_claims)
      mesh
      service
      later
      "k"
      (header "X-Decision-Token" inner_call.headers)
unfolding header
shown-IsGenuine body sig parted signed = genuine_body mesh body sig parted

Reach-Sanctioned_example :
    Sanctioned
      (platform full_claims)
      mesh
      service
      (event_codec other_out)
      inner
      later
      []
      after_other
      (other_out ∷ [])
      inner_call
Reach-Sanctioned_example =
    Reach-Sanctioned (platform full_claims) mesh service (event_codec other_out) inner
      (λ req. ok view_response) after_other (other_out ∷ []) later [] inner_call
      (record inner_call { headers = with_answer inner_call.headers }) (with_answer [])
      other_reached refl refl named_secret (λ e. named_user (sym inner_subject ∙ e)) refl
      shown-IsGenuine inner_served
