-- ===== src/Sidecar/Start.antt =====
-- cmd/zta-pep/main.go: the start of the sidecar, from the path of its configuration to what it serves
-- and over which transport. The YAML decoder, url.Parse and the two transports are parameters; the
-- text of a foreign error is left out.
pub mod Laws
use zta_core.Base.{
  String, Bool, true, false, Option, none, some, ◌==◌, message, Result, ok, err, ◌>>=◌, or_message,
}
use zta_core.Http.{Exchange}
use zta_core.Authzen.{Response}
use zta_core.Grpc.{Structs, EvaluationRequest, Served}
use zta_core.PdpClient.{evaluate}
use zta_core.Spiffe.{server, TlsConfig}
use zta_core.Services.Tls.{World, env_or, load_tls, pdp_grpc_client}
use zta_core.Sidecar.{Config, Pdp, check_config, build_pdp}

-- The packages that only the commands call.
pub record Packages : Type 1 where
  -- `strconv.Quote`
  pub quote : String → String
  -- `yaml.Unmarshal` into a `Config`
  pub unmarshal_yaml : String → Option Config
  -- `url.Parse`, as the URL's text
  pub parse_url : String → Option String
  -- the exchange of the PDP client over HTTP, and its decoder
  pub post : String → String → Exchange
  pub decode_response : String → Option Response
  pub structs : Structs
  -- `grpc.NewClient` with these credentials
  pub new_client : String → TlsConfig → Result (EvaluationRequest structs → Served structs)

-- What is served, and where to.
pub record Service : Type 0 where
  pub config : Config
  pub pdp : Pdp
  pub target : String

-- `ListenAndServeTLS`, or `ListenAndServe`
pub data Serving : Type 0 where
  over_tls : TlsConfig → Service → Serving
  in_clear : Service → Serving

-- The default of the `-config` flag.
unfoldable pub config_path : World → String
config_path W = env_or W "ZTA_PEP_CONFIG" "/etc/zta/pep.yaml"

module _ (W : World) (G : Packages) where
  -- `parseConfig`
  unfoldable pub parse_config : String → Result Config
  parse_config text = do
    cfg ← or_message "config: parse" (G.unmarshal_yaml text)
    check_config G.quote cfg

  -- `loadConfig`
  unfoldable pub load_config : String → Result Config
  load_config path = do text ← or_message "open" (W.files path); parse_config text

  -- `buildPDP`
  unfoldable pub connect : Config → Result Pdp
  connect cfg =
      build_pdp (pdp_grpc_client W G.structs G.new_client) (evaluate G.post G.decode_response) cfg

  abbrev pub with_tls : Service → Option TlsConfig → Result Serving
  with_tls svc (some tls) = ok (over_tls tls svc)
  with_tls svc none =
      err
        (message "require_peer_svid=true but no SVID configured (SPIFFE_ENDPOINT_SOCKET / SVID_*)")

  abbrev pub on_transport : Service → Bool → Result Serving
  on_transport svc false = ok (in_clear svc)
  on_transport svc true = do tls ← load_tls W server; with_tls svc tls

  -- `run`, up to the call that listens
  unfoldable pub run : String → Result Serving
  run path = do
    cfg ← load_config path
    pdp ← connect cfg
    target ← or_message "config: invalid upstream URL" (G.parse_url cfg.upstream)
    on_transport (record { config = cfg; pdp = pdp; target = target }) cfg.require_peer_svid
