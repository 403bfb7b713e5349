-- ===== src/PdpServer.antt =====
-- cmd/pdp/main.go: the PDP's process, from its environment to what it serves: where its policies come
-- from, its token secret and lifetime, and its two endpoints. The packages that it calls are
-- parameters; a lifetime is in nanoseconds and not negative.
pub mod Laws
use zta_core.Base.{
  ℕ, String, Bool, true, false, Option, none, some, List, [], ◌∷◌, ◌==◌, if◌then◌else◌, Error,
  Result, ok, err, ◌>>=◌,
}
use zta_core.Base64.{Bytes}
use zta_core.Json.{Value}
use zta_core.Engine.Compile.{Opa, default_decision_query, new_engine, new_from_bundle}
use zta_core.Pdp.{Engine, Service}
use zta_core.Policies.{Embedded, modules, base_data}
use zta_core.Services.{PdpConfig, pdp_service}
use zta_core.Services.Tls.{World, env_or, pdp_grpc_server_creds}
use zta_core.Spiffe.{TlsConfig}
use zta_core.Bundles.{Address, Minio, new_store, latest_bundle}

-- What the process is built from.
pub record Build : Type 1 where
  pub world : World
  pub opa : Opa
  pub embedded : Embedded
  -- `json.Unmarshal` of data.json into a map
  pub unmarshal_data : String → Option (List (String × Value))
  pub minio : Minio
  -- `time.ParseDuration`
  pub parse_duration : String → Option ℕ
  -- the error of `net.Listen`, if there is one
  pub listen : String → Option Error

-- A process that serves: the core behind its endpoints, the address of the HTTP facade, and that of
-- the gRPC endpoint with its TLS configuration, if it has any.
pub record Running : Type 0 where
  pub service : Service
  pub http_addr : String
  pub grpc : Option (String × Option TlsConfig)

module _ (B : Build) where
  -- `tokenSecret`
  unfoldable pub token_secret : String
  token_secret = env_or B.world "PDP_TOKEN_SECRET" "dev-insecure-secret-change-me"

  -- `tokenTTL`
  unfoldable pub token_ttl : ℕ
  token_ttl =
      let s = B.world.getenv "PDP_TOKEN_TTL" in
      if s == ""
      then 300000000000
      else elim (B.parse_duration s) [ none ↦ 300000000000 | some d ↦ d ]

  -- The address of the bundle, at an endpoint.
  unfoldable pub bundle_address : String → Address
  bundle_address endpoint = record {
    endpoint = endpoint;
    access_key = env_or B.world "S3_ACCESS_KEY" "minioadmin";
    secret_key = env_or B.world "S3_SECRET_KEY" "minioadmin";
    bucket = env_or B.world "S3_BUCKET" "vsp-policy-bundles";
    object = env_or B.world "S3_OBJECT" "bundle.tar.gz";
    use_ssl = false;
  }

  abbrev pub pulled : B.minio.State → Result Bytes
  pulled state = do
    store ← new_store B.minio (bundle_address (B.world.getenv "S3_ENDPOINT"))
    (found, version) ← latest_bundle B.minio store state
    ok found

  -- `cfg.Bundle`, with the store as it stands
  unfoldable pub bundle_of : B.minio.State → Result Bytes
  bundle_of state = if B.world.getenv "S3_ENDPOINT" == "" then ok [] else pulled state

  -- `services.PDPService` over the embedded policies, or over a bundle
  unfoldable pub build : Bytes → Result Service
  build bundle =
      pdp_service (λ b. new_from_bundle B.opa b default_decision_query)
        (λ mods base. new_engine B.opa mods base default_decision_query) (modules B.embedded)
        (base_data B.unmarshal_data B.embedded)
        (record {
          token_secret = token_secret;
          token_ttl = token_ttl;
          bundle = bundle;
          extra_modules = [];
          extra_data = [];
        })

  abbrev pub listening : String → Option Error → Result (Option (String × Option TlsConfig))
  listening addr (some e) = err e
  listening addr none = do creds ← pdp_grpc_server_creds B.world; ok (some (addr, creds))

  -- The optional gRPC endpoint.
  unfoldable pub grpc_endpoint : Result (Option (String × Option TlsConfig))
  grpc_endpoint =
      let addr = B.world.getenv "PDP_GRPC_ADDR" in
      if addr == "" then ok none else listening addr (B.listen addr)

  -- `run`, up to the call that serves HTTP
  unfoldable pub run : B.minio.State → Result Running
  run state = do
    bundle ← bundle_of state
    svc ← build bundle
    grpc ← grpc_endpoint
    ok (record { service = svc; http_addr = env_or B.world "PDP_ADDR" ":8080"; grpc = grpc })
