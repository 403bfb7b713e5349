-- ===== src/Services/Tls/Laws.antt =====
-- When a process of the mesh speaks mTLS, with what, and when it speaks in the clear.
use zta_core.Base.{
  ℕ, String, ◌≡◌, ◌≢◌, refl, sym, ap, ◌∙◌, ◌↔◌, ◌⊎◌, inl, inr, false, Option, none, some, ◌==◌,
  eq_iff, arith, Result, ok, Bool-cases, wrap, if◌then◌else◌, >>=-elim, wrap-eq-ok, ok-injective,
}
use zta_core.Authzen.{Request, Response}
use zta_core.Grpc.{Structs, EvaluationRequest, Served, call}
use zta_core.Spiffe.{Role, client, Library, TlsConfig, workload_api, workload_roots}
use zta_core.Spiffe.Source.{Source, source_tls, from_workload_api}
use zta_core.Services.Tls.{
  World, trust_domain, workload_api_source, mtls_configured, load_static_svid, static_tls, tls_from,
  load_tls, dialed, pdp_grpc_client,
}

-- None of the sources is configured.
abbrev pub Unconfigured : World → Type 0
Unconfigured W =
    (W.getenv "SPIFFE_ENDPOINT_SOCKET" ≡ "")
    × ((W.getenv "SVID_CERT" ≡ "") ⊎ ((W.getenv "SVID_KEY" ≡ "") ⊎ (W.getenv "SVID_BUNDLE" ≡ "")))

from_workload_api-eq-ok :
    (L : Library) (new_x509_source : Option String → Result ℕ) (trust_domain socket : String)
    (made : Source)
    → (socket == "") ≡ false
    → from_workload_api L new_x509_source trust_domain socket ≡ ok made
    → (src : ℕ) × (td : String) × (new_x509_source (some socket) ≡ ok src)
      × (L.trust_domain_from_string trust_domain ≡ ok td)
      × (made ≡ record { svid = workload_api src; bundle = workload_roots src; td = td })
unfolding from_workload_api
from_workload_api-eq-ok L new_x509_source trust_domain socket made on h =
    >>=-elim (wrap "spiffe: trust domain" (L.trust_domain_from_string trust_domain)) _ h
      λ td h_td h₁.
        >>=-elim
          (wrap "spiffe: workload api"
            (new_x509_source (if socket == "" then none else some socket)))
          _ h₁
          λ src h_src h₂.
            let shape = sym (ok-injective _ _ h₂) in
            (src, td, rw on at (wrap-eq-ok _ _ h_src), wrap-eq-ok _ _ h_td, shape)

module _ (W : World) where
  workload_api_source-none :
      workload_api_source W ≡ ok none → W.getenv "SPIFFE_ENDPOINT_SOCKET" ≡ ""
  unfolding workload_api_source
  workload_api_source-none h = elim (Bool-cases (W.getenv "SPIFFE_ENDPOINT_SOCKET" == "")) [
    | inl e ↦ (eq_iff _ _).0 e
    | inr other ↦ absurd (
        >>=-elim
          (from_workload_api W.library W.new_x509_source (trust_domain W)
            (W.getenv "SPIFFE_ENDPOINT_SOCKET"))
          _ (wrap-eq-ok _ _ (rw other at h)) λ src h_src x. (cc))
  ]

  workload_api_source_off : W.getenv "SPIFFE_ENDPOINT_SOCKET" ≡ "" → workload_api_source W ≡ ok none
  unfolding workload_api_source
  workload_api_source_off h = rw h refl

  mtls_configured-false_iff :
      (mtls_configured W ≡ false)
      ↔ ((W.getenv "SVID_CERT" ≡ "") ⊎ ((W.getenv "SVID_KEY" ≡ "") ⊎ (W.getenv "SVID_BUNDLE" ≡ "")))
  unfolding mtls_configured
  mtls_configured-false_iff = ground (
    arith,
    eq_iff (W.getenv "SVID_CERT") "",
    eq_iff (W.getenv "SVID_KEY") "",
    eq_iff (W.getenv "SVID_BUNDLE") "",
  )

  static_tls-some : (role : Role) → static_tls W role ≢ ok none
  static_tls-some role h = >>=-elim (load_static_svid W) _ h λ loaded h_loaded x. (cc)

  tls_from-none :
      (role : Role) (src : Option Source)
      → tls_from W role src ≡ ok none
      → (src ≡ none) × (mtls_configured W ≡ false)
  tls_from-none role (some src) h = absurd (cc)
  tls_from-none role none h = elim (Bool-cases (mtls_configured W)) [
    | inl on ↦ absurd (static_tls-some role (rw on at h))
    | inr off ↦ (refl, off)
  ]

  -- A process speaks plain HTTP exactly when no socket of the Workload API is named and one of the three
  -- SVID files is not: what is configured and does not load is an error, never plain.
  pub load_tls-plain_iff : (role : Role) → (load_tls W role ≡ ok none) ↔ Unconfigured W
  unfolding load_tls
  load_tls-plain_iff role = (
    λ h. >>=-elim (workload_api_source W) _ h λ src h_src h_tls.
        let (nowhere, off) = tls_from-none role src h_tls in
        (workload_api_source-none (h_src ∙ ap ok nowhere), mtls_configured-false_iff.0 off),
    λ (unset, missing).
        rw (workload_api_source_off unset, mtls_configured-false_iff.1 missing) refl,
  )

  workload_api_source-some :
      (role : Role) (cfg : Option TlsConfig) (found : Option Source)
      → W.getenv "SPIFFE_ENDPOINT_SOCKET" ≢ ""
      → workload_api_source W ≡ ok found
      → tls_from W role found ≡ ok cfg
      → (src : ℕ) × (td : String) × (W.new_x509_source (some (W.getenv "SPIFFE_ENDPOINT_SOCKET"))
          ≡ ok src)
        × (W.library.trust_domain_from_string (trust_domain W) ≡ ok td)
        × (cfg
            ≡ some (record {
              role = role;
              svid = workload_api src;
              bundle = workload_roots src;
              member_of = td;
            }))
  unfolding workload_api_source source_tls
  workload_api_source-some role cfg found named h h_tls =
      let socket = W.getenv "SPIFFE_ENDPOINT_SOCKET" in
      let on : (socket == "") ≡ false = ground (arith, eq_iff socket "") in
      >>=-elim (from_workload_api W.library W.new_x509_source (trust_domain W) socket) _
        (wrap-eq-ok _ _ (rw on at h))
        λ made h_made h_found.
          let (src, td, h_src, h_td, shape) =
            from_workload_api-eq-ok W.library W.new_x509_source (trust_domain W) socket made on
              h_made in
          (
            src,
            td,
            h_src,
            h_td,
            ok-injective _ _ (
                sym h_tls
                ∙ ap (tls_from W role) (sym (ok-injective _ _ h_found))
                ∙ ap (λ m. ok (some (source_tls role m))) shape),
          )

  -- With a socket named, a configuration comes from the Workload API behind it, for the process's
  -- trust domain; the SVID files are not a fallback for an agent that does not answer.
  load_tls-workload_api :
      (role : Role) (cfg : Option TlsConfig)
      → W.getenv "SPIFFE_ENDPOINT_SOCKET" ≢ ""
      → load_tls W role ≡ ok cfg
      → (src : ℕ) × (td : String) × (W.new_x509_source (some (W.getenv "SPIFFE_ENDPOINT_SOCKET"))
          ≡ ok src)
        × (W.library.trust_domain_from_string (trust_domain W) ≡ ok td)
        × (cfg
            ≡ some (record {
              role = role;
              svid = workload_api src;
              bundle = workload_roots src;
              member_of = td;
            }))
  unfolding load_tls
  load_tls-workload_api role cfg named h =
      >>=-elim (workload_api_source W) _ h
        λ src h_src h_tls. workload_api_source-some role cfg src named h_src h_tls

  dialed-eq-ok :
      (S : Structs) (new_client : String → TlsConfig → Result (EvaluationRequest S → Served S))
      (addr : String) (pdp : Request → Result Response) (found : Option TlsConfig)
      → load_tls W client ≡ ok found
      → dialed W S new_client addr found ≡ ok pdp
      → (cfg : TlsConfig) × (conn : EvaluationRequest S → Served S) × (load_tls W client
          ≡ ok (some cfg))
        × (new_client addr cfg ≡ ok conn)
        × (pdp ≡ call S conn)
  dialed-eq-ok S new_client addr pdp none from h = absurd (cc)
  dialed-eq-ok S new_client addr pdp (some cfg) from h =
      >>=-elim (wrap "services: dial PDP gRPC" (new_client addr cfg)) _ h
        λ conn h_conn h₁. (cfg, conn, from, wrap-eq-ok _ _ h_conn, sym (ok-injective _ _ h₁))

  -- A client of the PDP over gRPC dials with the mTLS configuration of the process, never without one.
  pub pdp_grpc_client-eq-ok :
      (S : Structs) (new_client : String → TlsConfig → Result (EvaluationRequest S → Served S))
      (addr : String) (pdp : Request → Result Response)
      → pdp_grpc_client W S new_client addr ≡ ok pdp
      → (cfg : TlsConfig) × (conn : EvaluationRequest S → Served S) × (load_tls W client
          ≡ ok (some cfg))
        × (new_client addr cfg ≡ ok conn)
        × (pdp ≡ call S conn)
  unfolding pdp_grpc_client
  pdp_grpc_client-eq-ok S new_client addr pdp h =
      >>=-elim (load_tls W client) _ h
        λ cfg h_cfg h_dial. dialed-eq-ok S new_client addr pdp cfg h_cfg h_dial
