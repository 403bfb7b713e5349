-- ===== src/Services/Tls.antt =====
-- services/mtls.go and services/grpc.go: where the mTLS material of a process comes from. The
-- environment is a function from names to values, "" where a name is not set.
pub mod Laws
use zta_core.Base.{
  ℕ, String, Bool, true, false, not, ◌&&◌, Option, none, some, ◌==◌, if◌then◌else◌, message, Result,
  ok, err, ◌>>=◌, wrap,
}
use zta_core.Authzen.{Request, Response}
use zta_core.Grpc.{Structs, EvaluationRequest, Served, call}
use zta_core.Spiffe.{Library, Svid, Bundle, Role, server, client, TlsConfig, mtls_config}
use zta_core.Spiffe.Source.{Source, source_tls, from_workload_api}
use zta_core.Spiffe.Files.{Files, Encodings, load_svid, load_bundle}

abbrev pub Env : Type 0
Env = String → String

-- What a process finds around it: the environment, the files, and go-spiffe.
pub record World : Type 0 where
  pub getenv : Env
  pub files : Files
  pub library : Library
  pub encodings : Encodings
  -- `workloadapi.NewX509Source`
  pub new_x509_source : Option String → Result ℕ

module _ (W : World) where
  -- `envOr` of the commands
  unfoldable pub env_or : String → String → String
  env_or key fallback = let v = W.getenv key in if v == "" then fallback else v

  -- `trustDomain`
  unfoldable pub trust_domain : String
  trust_domain = env_or "SVID_TRUST_DOMAIN" "vsp.local"

  -- `workloadAPISource`; `none` is its `(nil, false, nil)`.
  unfoldable pub workload_api_source : Result (Option Source)
  workload_api_source =
      let sock = W.getenv "SPIFFE_ENDPOINT_SOCKET" in
      if sock == ""
      then ok none
      else wrap "services: spire workload api"
          (do src ← from_workload_api W.library W.new_x509_source trust_domain sock; ok (some src))

  -- `mtlsConfigured`
  unfoldable pub mtls_configured : Bool
  mtls_configured =
      not (W.getenv "SVID_CERT" == "")
      && (not (W.getenv "SVID_KEY" == "") && not (W.getenv "SVID_BUNDLE" == ""))

  -- `loadStaticSVID`
  unfoldable pub load_static_svid : Result (Svid × Bundle)
  load_static_svid = do
    svid ←
        wrap "services: load svid"
          (load_svid W.encodings (W.getenv "SVID_CERT") (W.getenv "SVID_KEY") W.files)
    bundle ←
        wrap "services: load bundle"
          (load_bundle W.encodings W.library trust_domain (W.getenv "SVID_BUNDLE") W.files)
    ok (svid, bundle)

  abbrev pub static_tls : Role → Result (Option TlsConfig)
  static_tls role = do (svid, bundle) ← load_static_svid; ok (some (mtls_config role svid bundle))

  abbrev pub tls_from : Role → Option Source → Result (Option TlsConfig)
  tls_from role (some src) = ok (some (source_tls role src))
  tls_from role none = if mtls_configured then static_tls role else ok none

  -- `LoadServerTLS` and `LoadClientTLS`, which differ in the role alone; `none` is plain HTTP.
  unfoldable pub load_tls : Role → Result (Option TlsConfig)
  load_tls role = do src ← workload_api_source; tls_from role src

  module _ (S : Structs)
      (new_client : String → TlsConfig → Result (EvaluationRequest S → Served S)) where
    abbrev pub dialed : String → Option TlsConfig → Result (Request → Result Response)
    dialed addr none = err (
        message
          "services: PDP gRPC needs an SVID (SPIFFE_ENDPOINT_SOCKET / SVID_*) but none configured")
    dialed addr (some cfg) = do
      conn ← wrap "services: dial PDP gRPC" (new_client addr cfg)
      ok (call S conn)

    -- `PDPGRPCClient`; `new_client` is `grpc.NewClient` with these credentials.
    unfoldable pub pdp_grpc_client : String → Result (Request → Result Response)
    pdp_grpc_client addr = do cfg ← load_tls client; dialed addr cfg

  -- `PDPGRPCServerCreds`, whose credentials are the TLS configuration
  unfoldable pub pdp_grpc_server_creds : Result (Option TlsConfig)
  pdp_grpc_server_creds = load_tls server
