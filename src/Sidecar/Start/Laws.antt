-- ===== src/Sidecar/Start/Laws.antt =====
-- How a sidecar that has started is configured, and what its guard believes of a caller.
use zta_core.Base.{
  String, ◌≡◌, ◌≢◌, refl, sym, subst, ◌⊎◌, inl, inr, Bool, true, false, Option, none, some, List,
  [], ◌∷◌, ◌||◌, ◌==◌, eq_iff, arith, ok, Bool-cases, or_message, >>=-elim, ok-injective,
}
use zta_core.Authzen.{profile_edge, profile_east_west, profile_partner}
use zta_core.Grpc.{EvaluationRequest, Served, call}
use zta_core.PdpClient.{evaluate}
use zta_core.Spiffe.{server, client, TlsConfig}
use zta_core.Services.Tls.{World, load_tls}
use zta_core.Services.Tls.Laws.{pdp_grpc_client-eq-ok}
use zta_core.Sidecar.{Config, RouteConfig, Pdp, is_profile, check_config, with_routes, build_pdp}
use zta_core.Sidecar.Start.{
  Packages, Service, Serving, over_tls, in_clear, load_config, parse_config, connect, with_tls,
  on_transport, run,
}

abbrev pub service_of : Serving → Service
service_of (over_tls tls svc) = svc
service_of (in_clear svc) = svc

-- A configuration of `parseConfig`.
pub record IsComplete (cfg : Config) : Type 0 where
  pub profile :
      (cfg.profile ≡ profile_edge)
      ⊎ ((cfg.profile ≡ profile_east_west) ⊎ (cfg.profile ≡ profile_partner))
  pub listen : cfg.listen ≢ ""
  pub upstream : cfg.upstream ≢ ""
  pub pep_id : cfg.pep_id ≢ ""
  pub routes : cfg.routes ≢ []

with_routes-eq-ok :
    (cfg out : Config) (routes : List RouteConfig)
    → with_routes cfg routes ≡ ok out
    → (cfg ≡ out) × (routes ≢ [])
with_routes-eq-ok cfg out [] h = absurd (cc)
with_routes-eq-ok cfg out (r ∷ rs) h = (ok-injective _ _ h, λ e. (cc))

is_profile-cases :
    (p : String)
    → is_profile p ≡ true
    → (p ≡ profile_edge) ⊎ ((p ≡ profile_east_west) ⊎ (p ≡ profile_partner))
is_profile-cases p h =
    ground (arith, h, eq_iff p profile_edge, eq_iff p profile_east_west, eq_iff p profile_partner)

check_config-IsComplete :
    (quote : String → String) (cfg out : Config)
    → check_config quote cfg ≡ ok out
    → (cfg ≡ out) × IsComplete cfg
unfolding check_config
check_config-IsComplete quote cfg out h = elim (Bool-cases (is_profile cfg.profile)) [
  | inr bad ↦ absurd (ground (arith, h, bad))
  | inl good ↦ elim (Bool-cases (cfg.listen == "" || (cfg.upstream == "" || cfg.pep_id == ""))) [
    | inl blank ↦ absurd (ground (arith, h, good, blank))
    | inr named ↦
        let (same, routed) = with_routes-eq-ok cfg out cfg.routes (rw (good, named) at h) in
        (
          same,
          record {
            profile = is_profile-cases cfg.profile good;
            listen = λ e. ground (arith, named, eq_iff cfg.listen "");
            upstream = λ e. ground (arith, named, eq_iff cfg.upstream "");
            pep_id = λ e. ground (arith, named, eq_iff cfg.pep_id "");
            routes = routed;
          },
        )
  ]
]

module _ (W : World) (G : Packages) where
  -- Over which transport, if the peer's SVID is required, and if not.
  abbrev pub Exposed : Bool → Serving → Type 0
  Exposed required (over_tls tls svc) = (required ≡ true) × (load_tls W server ≡ ok (some tls))
  Exposed required (in_clear svc) = required ≡ false

  -- A PDP over gRPC, always with mTLS, or else over HTTP.
  abbrev pub Connected : Config → Pdp → Type 0
  Connected cfg pdp =
      ((cfg.grpc_addr ≢ "")
        × (tls : TlsConfig) × (conn : EvaluationRequest G.structs → Served G.structs) × (load_tls W
              client
            ≡ ok (some tls))
        × (G.new_client cfg.grpc_addr tls ≡ ok conn)
        × (pdp ≡ call G.structs conn))
      ⊎ ((cfg.grpc_addr ≡ "")
          × (cfg.http_url ≢ "")
          × (pdp ≡ evaluate G.post G.decode_response cfg.http_url))

  connect-Connected : (cfg : Config) (pdp : Pdp) → connect W G cfg ≡ ok pdp → Connected cfg pdp
  unfolding connect build_pdp
  connect-Connected cfg pdp h = elim (Bool-cases (cfg.grpc_addr == "")) [
    | inr given ↦
        let (tls, conn, loaded, dials, is) =
          pdp_grpc_client-eq-ok W G.structs G.new_client cfg.grpc_addr pdp (rw given at h) in
        inl ((λ e. ground (arith, given, eq_iff cfg.grpc_addr "")), tls, conn, loaded, dials, is)
    | inl absent ↦ elim (Bool-cases (cfg.http_url == "")) [
      | inl none_too ↦ absurd (ground (arith, h, absent, none_too))
      | inr given ↦ inr (
        (eq_iff _ _).0 absent,
        (λ e. ground (arith, given, eq_iff cfg.http_url "")),
        sym (ok-injective _ _ (rw (absent, given) at h)),
      )
    ]
  ]

  with_tls-Exposed :
      (svc : Service) (tls : Option TlsConfig) (out : Serving)
      → load_tls W server ≡ ok tls
      → with_tls W G svc tls ≡ ok out
      → (service_of out ≡ svc) × Exposed true out
  with_tls-Exposed svc none out loaded h = absurd (cc)
  with_tls-Exposed svc (some tls) out loaded h =
      subst (λ o. (service_of o ≡ svc) × Exposed true o) (ok-injective _ _ h) (refl, (refl, loaded))

  on_transport-Exposed :
      (svc : Service) (required : Bool) (out : Serving)
      → on_transport W G svc required ≡ ok out
      → (service_of out ≡ svc) × Exposed required out
  on_transport-Exposed svc false out h =
      subst (λ o. (service_of o ≡ svc) × Exposed false o) (ok-injective _ _ h) (refl, refl)
  on_transport-Exposed svc true out h =
      >>=-elim (load_tls W server) _ h λ tls loaded h₁. with_tls-Exposed svc tls out loaded h₁

  load_config-IsComplete :
      (path : String) (cfg : Config) → load_config W G path ≡ ok cfg → IsComplete cfg
  unfolding load_config parse_config
  load_config-IsComplete path cfg h =
      >>=-elim (or_message "open" (W.files path)) _ h λ text h_text h₁.
        >>=-elim (or_message "config: parse" (G.unmarshal_yaml text)) _ h₁ λ read h_read h₂.
          let (same, complete) = check_config-IsComplete G.quote read cfg h₂ in
          subst IsComplete same complete

  -- A sidecar that starts has a complete configuration; it serves mTLS with the SVID of its process if
  -- the configuration requires the peer's SVID, and only without that in the clear; and it reaches the
  -- PDP over gRPC with mTLS, or over HTTP if no gRPC address is given.
  pub run-Started :
      (path : String) (out : Serving)
      → run W G path ≡ ok out
      → IsComplete (service_of out).config
        × Exposed (service_of out).config.require_peer_svid out
        × Connected (service_of out).config (service_of out).pdp
  unfolding run
  run-Started path out h = >>=-elim (load_config W G path) _ h λ cfg h_cfg h₁.
      >>=-elim (connect W G cfg) _ h₁ λ pdp h_pdp h₂.
        >>=-elim (or_message "config: invalid upstream URL" (G.parse_url cfg.upstream)) _ h₂
          λ target h_target h₃.
            let svc : Service = record { config = cfg; pdp = pdp; target = target } in
            let (is, exposed) = on_transport-Exposed svc cfg.require_peer_svid out h₃ in
            subst
              (λ s.
                IsComplete s.config
                × Exposed s.config.require_peer_svid out
                × Connected s.config s.pdp)
              (sym is)
              (load_config-IsComplete path cfg h_cfg, exposed, connect-Connected cfg pdp h_pdp)
