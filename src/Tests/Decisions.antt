-- ===== src/Tests/Decisions.antt =====
-- The PDP and its tokens.
use zta_core.Base.{
  ℕ, ◌+◌, ◌<◌, String, ◌<>◌, Bool, true, false, ◌≡◌, ◌≢◌, ◌↔◌, ◌⊎◌, refl, inl, inr, Option, none,
  some, [], ◌∷◌, Error, as_validation, invalid, message, ok, err, arith,
}
use zta_core.Base.Text.{dot, cut}
use zta_core.Base64.{Bytes, decode, encode}
use zta_core.Json.{Value, bool, str, obj, end, field, Map, get}
use zta_core.Json.Canon.{canon}
use zta_core.Authzen.{Request, Response, DecisionToken}
use zta_core.Authzen.Validate.{validate}
use zta_core.Authzen.Validate.Laws.{Conforms, validate-eq-ok_iff}
use zta_core.Engine.{Decision}
use zta_core.Engine
use zta_core.Token.{
  Claims, Issuer, issue, verify, stamped, unless_expired, resource_digest, seconds,
}
use zta_core.Token.Laws.{verify-eq-ok}
use zta_core.Pdp
use zta_core.Pdp.{evaluate, claims_for}
use zta_core.Pdp.Laws.{Justified, evaluate-Justified}
use zta_core.Tests.Toys.{
  toy_hash, claims_codec, platform, service, quick_issuer, no_claims, view, view_claims,
  view_response,
}

-- A request that the PDP refuses: its action has no domain.
abbrev unnamed : Request
unnamed = record view { action = record { name = "view"; properties = none } }

view_run : evaluate (platform view_claims) service 0 view ≡ ok view_response
unfolding evaluate validate zta_core.Authzen.Validate.is_colon_pair
    zta_core.Authzen.Validate.domain_of zta_core.Authzen.authz_profile get Pdp.to_input Pdp.assemble
    issue stamped claims_for zta_core.Authzen.auth_assurance_level resource_digest encode
    zta_core.Json.Render.marshal_map zta_core.Authzen.correlation_id zta_core.Signed.seal
    zta_core.Token.ttl_seconds Pdp.to_obligations zta_core.Authzen.Encode.action_fields
    zta_core.Authzen.Encode.request_fields zta_core.Authzen.Encode.resource_fields
    zta_core.Authzen.Encode.subject_fields zta_core.Authzen.Validate.issues
    zta_core.Authzen.Validate.name_token cut zta_core.Base.Text.split
    zta_core.Json.Canon.canon_fields zta_core.Json.Canon.place zta_core.Json.Order.before
    zta_core.Json.Render.quoted zta_core.Json.Render.render
view_run = refl

evaluate-Justified_example : Justified (platform view_claims) service 0 view view_response
evaluate-Justified_example =
    evaluate-Justified (platform view_claims) service 0 view view_response view_run

validate-eq-ok_iff_example : (validate (λ s. s) view ≡ ok tt) ↔ Conforms view
validate-eq-ok_iff_example = validate-eq-ok_iff (λ s. s) view

view_valid : validate (λ s. s) view ≡ ok tt
unfolding validate zta_core.Authzen.Validate.is_colon_pair zta_core.Authzen.Validate.domain_of
    zta_core.Authzen.authz_profile get
view_valid = refl

unnamed_issues :
    validate (λ s. s) unnamed
    ≡ err (invalid ("action.name view must match \"<domain>:<action>\" (e.g. wallet:settle)" ∷ []))
unfolding validate zta_core.Authzen.Validate.is_colon_pair zta_core.Authzen.Validate.domain_of
    zta_core.Authzen.authz_profile get
unnamed_issues = refl

unnamed_broken : ¬ Conforms unnamed
unnamed_broken c = ground (arith, unnamed_issues, (validate-eq-ok_iff (λ s. s) unnamed).1 c)

-- The codec does not know the claims of this request.
unsigned_run :
    evaluate (platform no_claims) service 0 view
    ≡ err (Error.wrapped "pdp: issuing decision token" (message "token: marshal claims"))
unfolding evaluate validate zta_core.Authzen.Validate.is_colon_pair
    zta_core.Authzen.Validate.domain_of zta_core.Authzen.authz_profile get Pdp.to_input Pdp.assemble
    issue stamped claims_for
unsigned_run = refl

view_issued : issue toy_hash (claims_codec view_claims) quick_issuer 0 view_claims ≡ ok "Bw.AQ"
unfolding issue stamped zta_core.Signed.seal encode
view_issued = refl

view_verified :
    verify toy_hash (claims_codec view_claims) quick_issuer 299000000000 "Bw.AQ" ≡ ok view_claims
unfolding verify zta_core.Signed.unseal cut decode
view_verified = refl

view_expired :
    verify toy_hash (claims_codec view_claims) quick_issuer 300000000000 "Bw.AQ"
    ≡ err (message "token: expired")
unfolding verify zta_core.Signed.unseal cut decode
view_expired = refl

verify-eq-ok_example :
    (body : String) × (sig : String) × (payload : Bytes) × (cut dot "Bw.AQ" ≡ some (body, sig))
    × (decode sig ≡ some (zta_core.Signed.Hash.hmac toy_hash "k" body))
    × (decode body ≡ some payload)
    × (zta_core.Signed.Codec.unmarshal (claims_codec view_claims) payload ≡ some view_claims)
    × (seconds 299000000000 < 300)
verify-eq-ok_example =
    verify-eq-ok toy_hash (claims_codec view_claims) quick_issuer 299000000000 "Bw.AQ" view_claims
      view_verified

abbrev other_issuer : Issuer
other_issuer = record { secret = "other"; ttl = 0 }

abbrev yes_document : Value
yes_document = obj (field "allow" (bool true) (field "reason_code" (str "ok") end))
