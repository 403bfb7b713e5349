-- ===== src/Tests/Processes.antt =====
-- The processes of the mesh: their mTLS material, their start, and the policies that they run.
use zta_core.Base.{
  ℕ, String, ◌≡◌, ◌≢◌, refl, sym, ap, ◌∙◌, ◌↔◌, ◌≤◌, ◌*◌, inl, inr, Bool, true, false, ◌<◌, ◌==◌,
  Option, none, some, [], ◌∷◌, Error, message, arith, Result, ok, err, if◌then◌else◌, ok-injective,
}
use zta_core.Base.Int.{pos}
use zta_core.Base64.{Bytes}
use zta_core.Http.{failed}
use zta_core.Caep.Transmitter.{answered}
use zta_core.Caep.Command.{Flags, Complete, main, main-zero_iff}
use zta_core.Engine.Compile.{Opa, default_decision_query}
use zta_core.Grpc.{serve, call}
use zta_core.Grpc.Exact.{returned}
use zta_core.Grpc.Delivery.{call-delivers}
use zta_core.Policies.{Entry, Embedded, modules}
use zta_core.Policies.Laws.{content}
use zta_core.Services.Tls.{World, load_tls}
use zta_core.Services.Tls.Laws.{Unconfigured, load_tls-plain_iff}
use zta_core.Spiffe.{server}
use zta_core.Sidecar.{Config}
use zta_core.Sidecar.Start.{Packages, Serving, in_clear, run}
use zta_core.Sidecar.Start.Laws.{IsComplete, Exposed, Connected, service_of, run-Started}
use zta_core.Bundles.{Minio, Address, PutOptions, Object, publish, retention}
use zta_core.Bundles.Laws.{IsConsistent, retention-exact_iff}
use zta_core.PdpServer
use zta_core.PdpServer.{Build, Running, bundle_address}
use zta_core.PdpServer.Laws.{Powered, publish-run}
use zta_core.Tests.Toys.{toy_hash, event_codec, view, view_response}
use zta_core.Tests.Contract.{plain_structs, plain_faithful}
use zta_core.Tests.Sidecars.{gateway, signed_out}
use zta_core.Tests.Issuance.{toy_library, toy_encodings}

-- A process with nothing in its environment but a store's endpoint, and one file.
abbrev bare : World
bare = record {
  getenv = λ key. if key == "S3_ENDPOINT" then "s3:9000" else "";
  files = λ path. some "yaml";
  library = toy_library;
  encodings = toy_encodings;
  new_x509_source = λ socket. err (message "no agent");
}

load_tls-plain_iff_example : (load_tls bare server ≡ ok none) ↔ Unconfigured bare
load_tls-plain_iff_example = load_tls-plain_iff bare server

abbrev packages : Packages
packages = record {
  quote = λ s. s;
  unmarshal_yaml = λ text. some gateway;
  parse_url = λ text. some text;
  post = λ url body. failed (message "down");
  decode_response = λ text. none;
  structs = plain_structs;
  new_client = λ addr tls. err (message "dial");
}

abbrev serving : Serving
serving = in_clear (record {
  config = gateway;
  pdp = zta_core.PdpClient.evaluate packages.post packages.decode_response "http://pdp:8080";
  target = "http://127.0.0.1:9000";
})

sidecar_started : run bare packages "pep.yaml" ≡ ok serving
unfolding run zta_core.Sidecar.Start.load_config zta_core.Sidecar.Start.parse_config
    zta_core.Sidecar.check_config zta_core.Sidecar.Start.connect zta_core.Sidecar.build_pdp
sidecar_started = refl

run-Started_example :
    IsComplete gateway
    × Exposed bare packages gateway.require_peer_svid serving
    × Connected bare packages gateway (service_of serving).pdp
run-Started_example = run-Started bare packages "pep.yaml" serving sidecar_started

abbrev entry : String → Entry
entry path = record { path = path; is_dir = false; error = none }

abbrev policies : Embedded
policies = record {
  entries = entry "main.rego" ∷ entry "main_test.rego" ∷ entry "data.json" ∷ [];
  read_file = λ path. ok "package vsp";
}

-- A store of one object.
abbrev one_object : Minio
one_object = record {
  State = Option Bytes;
  Client = String;
  connect = λ endpoint access secret ssl. ok endpoint;
  bucket_exists = λ c bucket s. ok true;
  make_bucket = λ c bucket locked s. (none, s);
  put_object = λ c bucket object stored o s. (ok "v1", some stored);
  get_object = λ c bucket object s. got s;
}
  where
    got : Option Bytes → Result Object
    got none = err (message "no such key")
    got (some b) = ok (record { content = ok b; version = ok "v1" })

abbrev address : Address
address = record {
  endpoint = "s3:9000";
  access_key = "minioadmin";
  secret_key = "minioadmin";
  bucket = "vsp-policy-bundles";
  object = "bundle.tar.gz";
  use_ssl = false;
}

one_object-IsConsistent : IsConsistent one_object
one_object-IsConsistent endpoint k₁ s₁ k₂ s₂ ssl₁ ssl₂ c d bucket object stored o state left version
      got h₁ h₂ put read =
    let held : some stored ≡ left = ap (λ (q : Result String × Option Bytes). q.1) put in
    let reported : "v1" ≡ version =
      ok-injective _ _ (ap (λ (q : Result String × Option Bytes). q.0) put) in
    let is = ok-injective _ _ (ap (one_object.get_object d bucket object) held ∙ read) in
    (
      λ b h. sym (ok-injective _ _ (ap (λ (x : Object). x.content) is ∙ h)),
      λ v h. sym (ok-injective _ _ (ap (λ (x : Object). x.version) is ∙ h)) ∙ reported,
    )

abbrev opa : Opa
opa = record {
  prepare = λ query base mods. ok (λ input. ok []);
  read_bundle = λ tarball. ok (record { modules = ("a.rego", "a") ∷ []; base = [] });
}

abbrev pdp_build : Build
pdp_build = record {
  world = bare;
  opa = opa;
  embedded = policies;
  unmarshal_data = λ text. some [];
  minio = one_object;
  parse_duration = λ text. none;
  listen = λ addr. none;
}

abbrev pdp_running : Running
pdp_running = record {
  service = record {
    engine = zta_core.Engine.eval (λ input. ok []);
    issuer = record { secret = "dev-insecure-secret-change-me"; ttl = 300000000000 };
  };
  http_addr = ":8080";
  grpc = none;
}

bundle_published :
    ◌≡◌ {A = Result String × Option Bytes}
      (publish one_object address (ok (1 ∷ [])) (pos 1) 0 none)
      (ok "v1", some (1 ∷ []))
unfolding publish
bundle_published = refl

pdp_started : zta_core.PdpServer.run pdp_build (some (1 ∷ [])) ≡ ok pdp_running
unfolding PdpServer.run PdpServer.bundle_of zta_core.Bundles.new_store
    zta_core.Bundles.latest_bundle PdpServer.build zta_core.Services.pdp_service
    zta_core.Engine.Compile.new_from_bundle zta_core.Engine.Compile.by_path zta_core.Services.assign
    zta_core.Engine.Compile.new_engine PdpServer.grpc_endpoint PdpServer.token_secret
    PdpServer.token_ttl zta_core.Services.Tls.env_or
pdp_started = refl

endpoint_set : ◌≢◌ {A = String} "s3:9000" ""
endpoint_set h = cc

publish-run_example :
    (stored : Bytes) × (◌≡◌ {A = Result Bytes} (ok (1 ∷ [])) (ok stored))
    × Powered pdp_build stored pdp_running.service.engine
unfolding bundle_address zta_core.Services.Tls.env_or
publish-run_example =
    publish-run pdp_build address (ok (1 ∷ [])) (pos 1) 0 none (some (1 ∷ [])) "v1" pdp_running
      one_object-IsConsistent bundle_published endpoint_set refl refl refl pdp_started

few : 106752 < 213504
few = omega arith

retention-exact_iff_example :
    (retention (pos 106752) ≡ pos (106752 * 86400000000000)) ↔ (106752 ≤ 106751)
retention-exact_iff_example = retention-exact_iff 106752 few

call-delivers_example :
    call plain_structs (serve plain_structs (λ req. ok view_response)) view
    ≡ ok (returned view_response)
call-delivers_example =
    call-delivers plain_structs (λ req. ok view_response) view view_response (λ m. (m, refl))
      plain_faithful refl (300, refl, omega arith)

abbrev push : Flags
push = record {
  secret = "k";
  subject = "u-1";
  kind = "session-revoked";
  receivers = "http://a" ∷ [];
}

main-zero_iff_example :
    ((main bare (λ tls url set. answered 202) toy_hash (event_codec signed_out) push 5000000000).0
      ≡ 0)
    ↔ Complete bare (λ tls url set. answered 202) toy_hash (event_codec signed_out) push 5000000000
main-zero_iff_example =
    main-zero_iff bare (λ tls url set. answered 202) toy_hash (event_codec signed_out) push
      5000000000
