-- ===== src/PdpServer/Laws.antt =====
-- Which policies a PDP runs, with which secret, and what its gRPC endpoint exposes.
use mathlib.Core.Option.{some-injective}
use zta_core.Base.{
  ℕ, String, ◌≡◌, ◌≢◌, sym, ap, subst, ◌∙◌, ◌⊎◌, inl, inr, Option, none, some, List, [], ◌∷◌, ◌==◌,
  eq_iff, arith, Error, Result, ok, wrap, Bool-cases, Option-cases, or_message-eq-ok, wrap-eq-ok,
  >>=-elim, ok-injective,
}
use zta_core.Base.Int.{ℤ}
use zta_core.Base64.{Bytes}
use zta_core.Json.{Value}
use zta_core.Engine.Compile.Laws.{Compiled, OfBundle, new_engine-Compiled, new_from_bundle-OfBundle}
use zta_core.Engine.Compile.{default_decision_query, new_engine, new_from_bundle}
use zta_core.Pdp.{Engine, Service}
use zta_core.Policies.{modules, base_data}
use zta_core.Services.{pdp_service, engine_of, layer}
use zta_core.Services.Tls.{env_or, load_tls, pdp_grpc_server_creds}
use zta_core.Services.Tls.Laws.{Unconfigured, load_tls-plain_iff}
use zta_core.Spiffe.{server, TlsConfig}
use zta_core.Bundles.{Address, publish, latest_bundle, new_store}
use zta_core.Bundles.Laws.{IsConsistent, latest_bundle-publish}
use zta_core.PdpServer.{
  Build, Running, token_secret, token_ttl, bundle_address, pulled, bundle_of, build, listening,
  grpc_endpoint, run,
}

module _ (B : Build) where
  -- The engine of a bundle: of the bundle's own policies and data, or of the embedded ones if it has
  -- no bytes.
  abbrev pub Powered : Bytes → Engine → Type 0
  Powered (b ∷ bs) engine = OfBundle B.opa (b ∷ bs) engine
  Powered [] engine =
      (mods : List (String × String)) × (base : List (String × Value)) × (text : String) × (modules
          B.embedded
        ≡ ok mods)
      × (B.embedded.read_file "data.json" ≡ ok text)
      × (B.unmarshal_data text ≡ some base)
      × Compiled B.opa mods base engine

  abbrev powering : Bytes → Result Engine
  powering bundle =
      engine_of (λ b. new_from_bundle B.opa b default_decision_query)
        (λ mods base. new_engine B.opa mods base default_decision_query) (modules B.embedded)
        (base_data B.unmarshal_data B.embedded)
        (record {
          token_secret = token_secret B;
          token_ttl = token_ttl B;
          bundle = bundle;
          extra_modules = [];
          extra_data = [];
        })
        bundle

  base_data-eq-ok :
      (base : List (String × Value))
      → base_data B.unmarshal_data B.embedded ≡ ok base
      → (text : String) × (B.embedded.read_file "data.json" ≡ ok text)
        × (B.unmarshal_data text ≡ some base)
  unfolding base_data
  base_data-eq-ok base h =
      >>=-elim (wrap "policies: reading data.json" (B.embedded.read_file "data.json")) _ h
        λ text h_text parsed. (text, wrap-eq-ok _ _ h_text, or_message-eq-ok _ _ parsed)

  powering-Powered :
      (bundle : Bytes) (engine : Engine) → powering bundle ≡ ok engine → Powered bundle engine
  unfolding layer
  powering-Powered (b ∷ bs) engine h = new_from_bundle-OfBundle B.opa (b ∷ bs) engine h
  powering-Powered [] engine h = >>=-elim (modules B.embedded) _ h λ mods h_mods h₁.
      >>=-elim (base_data B.unmarshal_data B.embedded) _ h₁ λ base h_base h₂.
        let (text, read, parsed) = base_data-eq-ok base h_base in
        (mods, base, text, h_mods, read, parsed, new_engine-Compiled B.opa mods base engine h₂)

  build-Powered :
      (bundle : Bytes) (svc : Service)
      → build B bundle ≡ ok svc
      → Powered bundle svc.engine × (svc.issuer.secret ≡ token_secret B)
  unfolding build pdp_service
  build-Powered bundle svc h = >>=-elim (powering bundle) _ h λ engine h_engine made.
      let is = ok-injective _ _ made in
      (
        subst (Powered bundle) (ap (λ (x : Service). x.engine) is)
            (powering-Powered bundle engine h_engine),
        sym (ap (λ (x : Service). x.issuer.secret) is),
      )

  bundle_of-pulled :
      (state : B.minio.State) (content : Bytes)
      → B.world.getenv "S3_ENDPOINT" ≢ ""
      → bundle_of B state ≡ ok content
      → pulled B state ≡ ok content
  unfolding bundle_of
  bundle_of-pulled state content set h = elim (Bool-cases (B.world.getenv "S3_ENDPOINT" == "")) [
    | inl unset ↦ absurd (set ((eq_iff _ _).0 unset))
    | inr is_set ↦ rw is_set at h
  ]

  grpc_endpoint-listening :
      (addr : String) (tls : Option TlsConfig)
      → grpc_endpoint B ≡ ok (some (addr, tls))
      → listening B (B.world.getenv "PDP_GRPC_ADDR") (B.listen (B.world.getenv "PDP_GRPC_ADDR"))
        ≡ ok (some (addr, tls))
  unfolding grpc_endpoint
  grpc_endpoint-listening addr tls h = elim (Bool-cases (B.world.getenv "PDP_GRPC_ADDR" == "")) [
    | inl unset ↦ absurd (ground (arith, h, unset))
    | inr is_set ↦ rw is_set at h
  ]

  listening-eq-ok :
      (given addr : String) (tls : Option TlsConfig) (failed : Option Error)
      → listening B given failed ≡ ok (some (addr, tls))
      → (load_tls B.world server ≡ ok tls) × (addr ≡ given)
  unfolding pdp_grpc_server_creds
  listening-eq-ok given addr tls (some e) h = absurd (cc)
  listening-eq-ok given addr tls none h =
      >>=-elim (load_tls B.world server) _ h λ creds h_creds made.
        let is = some-injective _ _ (ok-injective _ _ made) in
        (
          h_creds ∙ ap ok (ap (λ (p : String × Option TlsConfig). p.1) is),
          sym (ap (λ (p : String × Option TlsConfig). p.0) is),
        )

  bundle_address-fields :
      (endpoint : String)
      → ((bundle_address B endpoint).endpoint ≡ endpoint)
        × ((bundle_address B endpoint).bucket ≡ env_or B.world "S3_BUCKET" "vsp-policy-bundles")
        × ((bundle_address B endpoint).object ≡ env_or B.world "S3_OBJECT" "bundle.tar.gz")
  unfolding bundle_address
  bundle_address-fields endpoint = (
    (λ i. endpoint),
    (λ i. env_or B.world "S3_BUCKET" "vsp-policy-bundles"),
    λ i. env_or B.world "S3_OBJECT" "bundle.tar.gz",
  )

  -- A PDP that reads its policies from the store, once a bundle has been published there at its endpoint
  -- and under its bucket and key, runs OPA's evaluation of the decision query over the modules of the
  -- published file, each path once and no other module, and over the file's data, if the file is not
  -- empty; an empty file leaves it with the embedded modules and data. Provided that the service answers
  -- a read with the object that was put last.
  pub publish-run :
      (a : Address) (file : Result Bytes) (retain_days : ℤ) (now : ℕ) (state left : B.minio.State)
      (version : String) (out : Running)
      → IsConsistent B.minio
      → publish B.minio a file retain_days now state ≡ (ok version, left)
      → B.world.getenv "S3_ENDPOINT" ≢ ""
      → B.world.getenv "S3_ENDPOINT" ≡ a.endpoint
      → env_or B.world "S3_BUCKET" "vsp-policy-bundles" ≡ a.bucket
      → env_or B.world "S3_OBJECT" "bundle.tar.gz" ≡ a.object
      → run B left ≡ ok out
      → (content : Bytes) × (file ≡ ok content) × Powered content out.service.engine
  unfolding run
  publish-run a file retain_days now state left version out consistent h set same_endpoint
        same_bucket same_object h_run =
      >>=-elim (bundle_of B left) _ h_run λ content h_content h₁.
        >>=-elim (build B content) _ h₁ λ svc h_svc h₂.
          >>=-elim (grpc_endpoint B) _ h₂ λ grpc h_grpc made.
            >>=-elim (new_store B.minio (bundle_address B (B.world.getenv "S3_ENDPOINT"))) _
              (bundle_of-pulled left content set h_content)
              λ store h_store h₃.
                >>=-elim (latest_bundle B.minio store left) _ h₃ λ found h_found h₄.
                  let (dialled, bucket, object) =
                    bundle_address-fields (B.world.getenv "S3_ENDPOINT") in
                  let (bytes, same) =
                    latest_bundle-publish B.minio consistent a
                      (bundle_address B (B.world.getenv "S3_ENDPOINT")) file retain_days now state
                      left version found.1 store found.0 h (dialled ∙ same_endpoint)
                      (bucket ∙ same_bucket) (object ∙ same_object) h_store h_found in
                  (
                    content,
                    bytes ∙ h₄,
                    subst (λ (x : Running). Powered content x.service.engine)
                        (ok-injective _ _ made) (build-Powered content svc h_svc).0,
                  )

  -- A PDP that runs answers gRPC without TLS only if no source of an SVID is configured, and with the
  -- mTLS configuration of its process otherwise.
  run-grpc :
      (state : B.minio.State) (out : Running) (addr : String) (tls : Option TlsConfig)
      → run B state ≡ ok out
      → out.grpc ≡ some (addr, tls)
      → (load_tls B.world server ≡ ok tls)
        × (addr ≡ B.world.getenv "PDP_GRPC_ADDR")
        × (((tls ≡ none) × Unconfigured B.world) ⊎ ((cfg : TlsConfig) × (tls ≡ some cfg)))
  unfolding run
  run-grpc state out addr tls h shape = >>=-elim (bundle_of B state) _ h λ content h_content h₁.
      >>=-elim (build B content) _ h₁ λ svc h_svc h₂.
        >>=-elim (grpc_endpoint B) _ h₂ λ grpc h_grpc made.
          let is = ap (λ (x : Running). x.grpc) (ok-injective _ _ made) in
          let (creds, same) =
            listening-eq-ok (B.world.getenv "PDP_GRPC_ADDR") addr tls _
              (grpc_endpoint-listening addr tls (h_grpc ∙ ap ok (is ∙ shape))) in
          (
            creds,
            same,
            elim (Option-cases tls) [
              | inl plain ↦ inl (plain, (load_tls-plain_iff B.world server).0 (creds ∙ ap ok plain))
              | inr with_tls ↦ inr with_tls
            ],
          )
