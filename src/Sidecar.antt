-- ===== src/Sidecar.antt =====
-- cmd/zta-pep/main.go: the sidecar. Its configuration once the YAML is decoded, the choice of the
-- PDP's transport, the PEP that it wires, the dispatch of a request, and the rewriting of the
-- upstream's responses at the edge. Paths are in the mux's clean form.
pub mod Laws
pub mod History
pub mod Start
pub mod System
pub mod Admission
use Prim.Native.String.{len}
use zta_core.Base.{
  ℕ, String, ◌<>◌, Bool, true, false, not, ◌&&◌, ◌||◌, Option, none, some, List, [], ◌∷◌, map, ◌==◌,
  starts_with, if◌then◌else◌, message, Result, ok, err,
}
use zta_core.Base.Text.Decimal.{decimal}
use zta_core.Base64.{Bytes}
use zta_core.Json.{str, obj, end, field}
use zta_core.Json.Render.{marshal}
use zta_core.Signed.{Hash, Codec}
use zta_core.Http.{HttpRequest, header, set_header, Reply}
use zta_core.Authzen.{profile_edge, profile_east_west, profile_partner, Request, Response}
use zta_core.Token.{Claims, Issuer}
use zta_core.Token
use zta_core.Caep.Cache.{Event, Cache, is_revoked}
use zta_core.Caep.Tokens.{Signer}
use zta_core.Caep.Receiver.{receive}
use zta_core.Pep.{header_step_up_required, Route, Platform}
use zta_core.Pep
use zta_core.Pep.Middleware.{Enforced, middleware}

pub record RouteConfig : Type 0 where
  pub method : String
  pub path : String
  pub action : String
  pub resource_type : String
  pub resource_props : List String

pub record Config : Type 0 where
  pub listen : String
  pub profile : String
  pub pep_id : String
  pub upstream : String
  pub require_peer_svid : Bool
  pub token_secret : String
  pub caep_secret : String
  pub http_url : String
  pub grpc_addr : String
  pub routes : List RouteConfig

abbrev pub is_profile : String → Bool
is_profile p = p == profile_edge || (p == profile_east_west || p == profile_partner)

abbrev with_routes : Config → List RouteConfig → Result Config
with_routes cfg [] = err (message "config: at least one route is required")
with_routes cfg (r ∷ rs) = ok cfg

-- `parseConfig`, after the YAML is decoded; `quote` is `strconv.Quote`.
unfoldable pub check_config : (String → String) → Config → Result Config
check_config quote cfg =
    if is_profile cfg.profile
    then (if cfg.listen == "" || (cfg.upstream == "" || cfg.pep_id == "")
        then err (message "config: listen, upstream and pep_id are required")
        else with_routes cfg cfg.routes)
    else err (message ("config: profile must be edge|east_west|partner, got " <> quote cfg.profile))

abbrev pub Pdp : Type 0
Pdp = Request → Result Response

-- `buildPDP`, with the two clients as parameters
unfoldable pub build_pdp : (String → Result Pdp) → (String → Pdp) → Config → Result Pdp
build_pdp grpc http cfg =
    if cfg.grpc_addr == ""
    then (if cfg.http_url == ""
        then err (message "config: pdp.grpc_addr or pdp.http_url is required")
        else ok (http cfg.http_url))
    else grpc cfg.grpc_addr

-- `routes`
unfoldable pub routes : Config → List Route
routes cfg =
    map
      (λ r. record {
        method = r.method;
        path = r.path;
        action = r.action;
        resource_type = r.resource_type;
        resource_props = r.resource_props;
      })
      cfg.routes

-- `attestedInTrustDomain.ValidateSVID`
unfoldable pub validate_svid : String → Result Bool
validate_svid id = ok (starts_with id "spiffe://")

-- `len` counts the bytes of a text, as Go's `len` does.
abbrev challenge : String → Reply → Reply
challenge acr resp =
    let text = marshal (
      obj (
        field "error" (str "step_up_required")
          (field "required_acr" (str acr) (field "method" (str "mfa") end)))) in
    record {
      status = 401;
      headers =
          set_header "Content-Length" (decimal (len text))
            (set_header "Content-Type" "application/json" resp.headers);
      body = text;
    }

-- `proxy.ModifyResponse` of the edge
unfoldable pub modify_response : Reply → Reply
modify_response resp =
    let acr = header header_step_up_required resp.headers in
    if acr == "" then resp else challenge acr resp

-- Whether a request goes to the PEP, or is answered by the sidecar itself.
pub data Handled : Type 0 where
  replied : Reply → Handled
  guarded : Option Enforced → Handled

abbrev pub health : Reply
health = record { status = 200; headers = []; body = "ok" }

module _ (F : Platform) (H : Hash) (claims : Codec Claims) (events : Codec Event) (pdp : Pdp) where
  abbrev pub verifier : ℕ → Config → Option (String → Result Claims)
  verifier now cfg =
      if cfg.token_secret == ""
      then none
      else some (
          zta_core.Token.verify H claims (record { secret = cfg.token_secret; ttl = 60000000000 })
            now)

  abbrev pub revocations : Config → Cache → Option (String → Bool)
  revocations cfg cache = if cfg.caep_secret == "" then none else some (is_revoked cache)

  -- The `pep.Config` of the guard, with the cache as it stands.
  unfoldable pub guard_config : Config → ℕ → Cache → zta_core.Pep.Config
  guard_config cfg now cache = record {
    profile = cfg.profile;
    pep_id = cfg.pep_id;
    routes = routes cfg;
    pdp = some pdp;
    attestor = some validate_svid;
    require_peer_svid = cfg.require_peer_svid;
    token_verifier = verifier now cfg;
    revocations = revocations cfg cache;
  }

  abbrev pub is_event : Config → HttpRequest → Bool
  is_event cfg r = not (cfg.caep_secret == "") && (r.method == "POST" && r.path == "/events")

  abbrev pub is_health : HttpRequest → Bool
  is_health r = (r.method == "GET" || r.method == "HEAD") && r.path == "/healthz"

  abbrev pub ingested : Reply × Cache → Handled × Cache
  ingested (reply, cache) = (replied reply, cache)

  -- The mux of `handler`: the reply or the guard's answer, and the cache that is left.
  unfoldable pub handle : Config → ℕ → Bytes → Cache → HttpRequest → Handled × Cache
  handle cfg now random cache r =
      if is_event cfg r
      then ingested (receive H events (record { secret = cfg.caep_secret }) cache r.body)
      else if is_health r
      then (replied health, cache)
      else (guarded (middleware F (guard_config cfg now cache) random r), cache)
