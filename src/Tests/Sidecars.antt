-- ===== src/Tests/Sidecars.antt =====
-- The sidecar: a revocation posted to it, and a step-up through the edge.
use zta_core.Base.{String, ◌≡◌, ◌≢◌, false, refl, none, [], ◌∷◌, ok}
use zta_core.Http.{HttpRequest, Headers, header, Reply, stream}
use zta_core.Authzen.{profile_east_west}
use zta_core.Caep.Cache.{Event}
use zta_core.Caep.Tokens.{Signer, sign}
use zta_core.Pep.{Platform, deny_step_up, Outcome}
use zta_core.Pep.Check.{because}
use zta_core.Pep.Middleware.{challenge}
use zta_core.Sidecar.{Config, modify_response, check_config}
use zta_core.Sidecar.Laws.{modify_response-challenge}
use zta_core.Tests.Toys.{toy_hash, event_codec}

abbrev pub signed_out : Event
signed_out = record { kind = "session-revoked"; subject = "u-1"; issued_at = 5 }

abbrev signer : Signer
signer = record { secret = "k" }

abbrev pub certs : Platform
certs = record {
  id_from_cert = λ cert. none;
  split_host = λ s. none;
  unmarshal_body = λ s. none;
  hash = toy_hash;
}

abbrev pub gateway : Config
gateway = record {
  listen = ":8080";
  profile = "edge";
  pep_id = "edge-1";
  upstream = "http://127.0.0.1:9000";
  require_peer_svid = false;
  token_secret = "k";
  caep_secret = "k";
  http_url = "http://pdp:8080";
  grpc_addr = "";
  routes =
      (record {
        method = "GET";
        path = "/view";
        action = "acct:view";
        resource_type = "acct:wallet";
        resource_props = [];
      })
      ∷ [];
}

abbrev message_of : String → String → Headers → String → HttpRequest
message_of method path hs text = record {
  method = method;
  path = path;
  headers = hs;
  remote_addr = "";
  tls = none;
  body = stream text;
}

abbrev pub signal : HttpRequest
signal = message_of "POST" "/events" [] "Bw.AQ"

abbrev pub view_call : HttpRequest
view_call =
    message_of "GET" "/view" (("X-Vsp-Subject-Id", "u-1") ∷ ("X-Decision-Token", "Bw.AQ") ∷ []) ""

gateway_checked : check_config (λ s. s) gateway ≡ ok gateway
unfolding check_config
gateway_checked = refl

signal_signed : sign toy_hash (event_codec signed_out) signer 5000000000 signed_out ≡ ok "Bw.AQ"
unfolding sign zta_core.Signed.seal zta_core.Base64.encode
signal_signed = refl

pub subject_of_call : zta_core.Http.header "X-Vsp-Subject-Id" view_call.headers ≡ "u-1"
unfolding zta_core.Http.header
subject_of_call = refl

pub named_secret : ◌≢◌ {A = String} "k" ""
named_secret h = cc

pub named_user : ◌≢◌ {A = String} "u-1" ""
named_user h = cc

abbrev deep_step_up : Outcome
deep_step_up = record (because deny_step_up "low_aal" "c-1") { required_acr = "AAL3" }

abbrev plain_reply : Reply
plain_reply = record { status = 200; headers = []; body = "" }

named_level : ◌≢◌ {A = String} "AAL3" ""
named_level h = cc

no_step_up : zta_core.Http.header "X-Step-Up-Required" plain_reply.headers ≡ ""
unfolding zta_core.Http.header
no_step_up = refl

modify_response-challenge_example :
    ((modify_response (challenge profile_east_west deep_step_up)).status ≡ 401)
    × (modify_response plain_reply ≡ plain_reply)
modify_response-challenge_example =
    modify_response-challenge profile_east_west deep_step_up plain_reply refl named_level no_step_up

-- The length of a body is that of its bytes: the 62 characters of this one are 63 bytes.
length_in_bytes :
    header "Content-Length"
      (modify_response (record plain_reply { headers = ("X-Step-Up-Required", "é") ∷ [] })).headers
    ≡ "63"
unfolding modify_response header zta_core.Http.set_header zta_core.Base.Text.Decimal.decimal
    zta_core.Json.Render.marshal zta_core.Json.Render.render zta_core.Json.Canon.canon
    zta_core.Json.Canon.place zta_core.Json.Order.before
length_in_bytes = refl
