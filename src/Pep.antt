-- ===== src/Pep.antt =====
-- authz/pep/pep.go, and of authz/pep/enforce.go the configuration, the caller's identity, the
-- route guard and the AuthZEN request that is built. What the PEP calls stands in its
-- configuration and in `Platform`.
pub mod Check
pub mod Middleware
pub mod Reuse
pub mod Minted
pub mod Genuine
pub mod Sanction
use zta_core.Base.{
  ℕ, String, ◌<>◌, Bool, true, false, not, ◌&&◌, Option, none, some, List, [], ◌∷◌, ◌==◌, ◌/◌, ◌%◌,
  if◌then◌else◌, message, Result, ok, err, ◌>>=◌, or_message,
}
use zta_core.Base64.{Bytes}
use zta_core.Json.{Value, str, obj, Fields, end, field, Map, lookup, put}
use zta_core.Http.{HttpRequest, Headers, header, Body, stream, failing, read_all}
use zta_core.Authzen.{
  Profile, profile_edge, profile_east_west, profile_partner, subject_type_user,
  subject_type_workload, Subject, Action, Resource, Request, Response,
}
use zta_core.Signed.{Hash}
use zta_core.Token.{Claims}

-- The headers, in the canonical form that `net/http` gives them.
abbrev pub header_subject_id : String
header_subject_id = "X-Vsp-Subject-Id"

abbrev pub header_aal : String
header_aal = "X-Vsp-Aal"

abbrev pub header_caller_spiffe : String
header_caller_spiffe = "X-Vsp-Caller-Spiffe"

abbrev pub header_resource_id : String
header_resource_id = "X-Vsp-Resource-Id"

abbrev pub header_partner_id : String
header_partner_id = "X-Vsp-Partner-Id"

abbrev pub header_correlation_id : String
header_correlation_id = "X-Correlation-Id"

abbrev pub header_step_up_required : String
header_step_up_required = "X-Step-Up-Required"

abbrev pub header_decision_token : String
header_decision_token = "X-Decision-Token"

pub record Route : Type 0 where
  pub method : String
  pub path : String
  pub action : String
  pub resource_type : String
  pub resource_props : List String

pub data OutcomeKind : Type 0 where
  allow : OutcomeKind
  drop_l0 : OutcomeKind
  deny_route : OutcomeKind
  deny_forbidden : OutcomeKind
  deny_step_up : OutcomeKind

pub record Outcome : Type 0 where
  pub kind : OutcomeKind
  pub reason_code : String
  pub required_acr : String
  pub correlation_id : String
  pub decision_token : String

-- What the PEP calls of the packages that it imports.
pub record Platform : Type 0 where
  -- `x509svid.IDFromCert`, as the id's text
  pub id_from_cert : Bytes → Option String
  -- the host that `net.SplitHostPort` finds
  pub split_host : String → Option String
  -- `json.Unmarshal(b, &m)` for `var m map[string]any`; `null` leaves the nil map
  pub unmarshal_body : String → Option Map
  pub hash : Hash

-- `Config`; `none` is nil.
pub record Config : Type 0 where
  pub profile : Profile
  pub pep_id : String
  pub routes : List Route
  pub pdp : Option (Request → Result Response)
  pub attestor : Option (String → Result Bool)
  pub require_peer_svid : Bool
  pub token_verifier : Option (String → Result Claims)
  pub revocations : Option (String → Bool)

abbrev pub new_attested : Config → Option (String → Result Bool) → Bool → Result Config
new_attested cfg none true =
    err (message "pep: east_west profile requires an Attestor for the L0 check")
new_attested cfg attestor east = ok cfg

abbrev pub new_wired : Config → Option (Request → Result Response) → Result Config
new_wired cfg none = err (message "pep: PDP is required")
new_wired cfg (some pdp) = new_attested cfg cfg.attestor (cfg.profile == profile_east_west)

-- `New`; an error is its panic.
unfoldable pub new_pep : Config → Result Config
new_pep cfg = new_wired cfg cfg.pdp

-- `matchRoute`
unfoldable pub match_route : List Route → String → String → Option Route
match_route [] method path = none
match_route (rt ∷ rts) method path =
    let rest = match_route rts method path in
    if rt.method == method && rt.path == path then some rt else rest

-- `for _, key := range route.ResourceProps { if v, ok := body[key]; ok { props[key] = v } }`
unfoldable pub lift : List String → Map → Fields → Fields
lift [] body props = props
lift (key ∷ keys) body props =
    lift keys body (elim (lookup key body) [ none ↦ props | some v ↦ put key v props ])

module _ (F : Platform) where
  abbrev header_identity : Config → HttpRequest → Option String
  header_identity cfg r =
      if cfg.require_peer_svid
      then none
      else (let h = header header_caller_spiffe r.headers in if h == "" then none else some h)

  abbrev pub cert_identity : Option (List Bytes) → Option String
  cert_identity none = none
  cert_identity (some []) = none
  cert_identity (some (cert ∷ certs)) = F.id_from_cert cert

  -- `peerIdentity`
  unfoldable pub peer_identity : Config → HttpRequest → Option String
  peer_identity cfg r = elim (cert_identity r.tls) [
    | none ↦ header_identity cfg r
    | some id ↦ some id
  ]

  abbrev props_of : List String → String → Result Fields
  props_of keys raw =
      if raw == ""
      then ok end
      else (do body ← or_message "json" (F.unmarshal_body raw); ok (lift keys body end))

  abbrev pub props_read :
      List String → HttpRequest → Option String × Body → Result Fields × HttpRequest
  props_read keys r (none, left) = (err (message "read body"), record r { body = left })
  props_read keys r (some raw, left) = (props_of keys raw, record r { body = stream raw })

  -- `resourceProps`: the properties, and the request with its body restored.
  unfoldable pub resource_props : List String → HttpRequest → Result Fields × HttpRequest
  resource_props [] r = (ok end, r)
  resource_props (key ∷ keys) r = props_read (key ∷ keys) r (read_all r.body)

  -- `clientIP`
  unfoldable pub client_ip : HttpRequest → String
  client_ip r = elim (F.split_host r.remote_addr) [ none ↦ r.remote_addr | some host ↦ host ]

  -- `subject.Properties`
  unfoldable pub subject_properties : Config → HttpRequest → String → Fields
  subject_properties cfg r caller =
      let aal = field "auth_assurance_level" (str (header header_aal r.headers)) end in
      if cfg.profile == profile_east_west && not (caller == "")
      then put "act" (obj (field "type" (str subject_type_workload) (field "id" (str caller) end)))
          aal
      else aal

  -- `ctx`
  unfoldable pub request_context : Config → HttpRequest → String → Fields
  request_context cfg r cid =
      let ctx = field "authz_profile" (str cfg.profile) (
        field "correlation_id" (str cid)
          (field "pep" (obj (field "id" (str cfg.pep_id) end)) end)) in
      if cfg.profile == profile_edge
      then put "source_ip" (str (client_ip r)) ctx
      else (if cfg.profile == profile_partner
          then put "partner_id" (str (header header_partner_id r.headers)) ctx
          else ctx)

  -- The request that `buildRequest` returns, once the properties are read.
  unfoldable pub request_with : Config → HttpRequest → Route → String → String → Fields → Request
  request_with cfg r route cid caller props = record {
    subject = record {
      kind = subject_type_user;
      id = header header_subject_id r.headers;
      properties = some (subject_properties cfg r caller);
    };
    action = record { name = route.action; properties = some (field "method" (str r.method) end) };
    resource = record {
      kind = route.resource_type;
      id = header header_resource_id r.headers;
      properties = some props;
    };
    context = some (request_context cfg r cid);
  }

  -- `buildRequest`, with the request that it leaves
  unfoldable pub build_request :
      Config → HttpRequest → Route → String → String → Result Request × HttpRequest
  build_request cfg r route cid caller =
      let (props, left) = resource_props route.resource_props r in
      (props >>= (λ ps. ok (request_with cfg left route cid caller ps)), left)
