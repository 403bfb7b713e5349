-- ===== src/Pdp.antt =====
-- authz/pdp/pdp.go: validation, the decision engine, and the response with its token. The
-- parameters are Go's `%q`, its hashes, the encoding of claims, `json.Unmarshal` into a map, and
-- the engine.
pub mod Obligations
pub mod Laws
pub mod Minting
use zta_core.Base.{
  ℕ, String, ◌<>◌, Bool, true, false, Option, none, some, List, map, Result, ok, err, ◌>>=◌, wrap,
  or_message,
}
use zta_core.Base.Int.{ℤ, pos}
use zta_core.Json.{Value, obj, Fields, Map, get, as_string, as_map, or_empty}
use zta_core.Json.Render.{render}
use zta_core.Authzen.{
  Request, Response, ResponseContext, Obligation, DecisionToken, auth_assurance_level,
  correlation_id,
}
use zta_core.Authzen.Encode.{request_fields}
use zta_core.Authzen.Validate.{validate}
use zta_core.Signed.{Hash, Codec}
use zta_core.Token.{Claims, Issuer, issue, resource_digest, ttl_seconds}
use zta_core.Engine.{Decision}

-- What the PDP calls of the packages that it imports.
pub record Platform : Type 0 where
  -- `fmt.Sprintf("%q", s)`
  pub quote : String → String
  pub hash : Hash
  pub claims : Codec Claims
  -- `json.Unmarshal(b, &m)` for `var m map[string]any`
  pub unmarshal_map : String → Option Fields

-- `Engine`
abbrev pub Engine : Type 0
Engine = Value → Result Decision

-- `pdp.Service`
pub record Service : Type 0 where
  pub engine : Engine
  pub issuer : Issuer

abbrev pub obligation : Fields → Obligation
obligation m = record {
  kind = or_empty (as_string (get "type" m));
  details = as_map (get "details" m);
}

-- `toObligations`
unfoldable pub to_obligations : List Fields → List Obligation
to_obligations = map obligation

module _ (P : Platform) where
  -- `toInput`
  unfoldable pub to_input : Request → Result Fields
  to_input r =
      or_message "pdp: unmarshal request to map" (P.unmarshal_map (render (obj (request_fields r))))

  -- The claims that `assemble` hands to the issuer; the times are stamped there.
  unfoldable pub claims_for : Request → Claims
  claims_for r = record {
    subject = r.subject.id;
    action = r.action.name;
    resource = r.resource.kind <> ("/" <> r.resource.id);
    aal = auth_assurance_level r.subject;
    res_digest = resource_digest P.hash r.resource.properties;
    correlation_id = correlation_id r;
    issued_at = 0;
    expires_at = 0;
  }

  abbrev pub response : Decision → Option DecisionToken → Response
  response d tok = record {
    decision = d.allow;
    context = some (record {
      decision_token = tok;
      obligations = to_obligations d.obligations;
      reason_code = d.reason_code;
    });
  }

  abbrev pub minted : Issuer → String → DecisionToken
  minted i tok = record { value = tok; ttl_seconds = pos (ttl_seconds i) }

  abbrev pub with_token : Issuer → ℕ → Request → Bool → Result (Option DecisionToken)
  with_token i now r false = ok none
  with_token i now r true = do
    tok ← wrap "pdp: issuing decision token" (issue P.hash P.claims i now (claims_for r))
    ok (some (minted i tok))

  -- `Service.assemble`
  unfoldable pub assemble : Issuer → ℕ → Request → Decision → Result Response
  assemble i now r d = do tok ← with_token i now r d.allow; ok (response d tok)

  -- `Service.Evaluate`, with the clock's reading at the time when a token is issued
  unfoldable pub evaluate : Service → ℕ → Request → Result Response
  evaluate s now r = do
    _ ← validate P.quote r
    input ← to_input r
    d ← wrap "pdp: engine eval" (s.engine (obj input))
    assemble s.issuer now r d
